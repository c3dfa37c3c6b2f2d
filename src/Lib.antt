-- ===== src/Lib.antt =====
-- Verification of the rebekah gateway: the one port through which a console, a person or RAGBAZ Dash
-- reaches the services of a rebekah instance. The programs are nix/gateway.py, nix/mcp-bridge.py and
-- the four tools on OCI layouts and registries under tools/.
--
-- The parts of the gateway and the files that model them:
--
-- - `Config.validate` (Config/Validate): every fatal misconfiguration.
-- - `PasswordStore`, `OidcVerifier` and `Authenticator` (Auth): Auth/Store has the two tables as
--   dicts by primary key and a function for each method; Auth/Oidc the checks of the claims;
--   Auth/Principal whom an Authorization header speaks for, login and logout; Auth/Seed the first
--   user. Auth/Reach is a step relation over any interleaving of logins, requests and logouts.
--   Auth/Refine has the sessions as an abstract function from tokens.
-- - `make_handler` (Http): Http/Message has what a request is read as and what is written, Http/Routes
--   the routes of `_handle` as a data type, Http/Handler an endpoint for each, Http/Upstream what is
--   proxied and what comes back, Http/Pages the console's files. A handler is a function on the state
--   of the server: its authenticator and the calls that it passed to a backend.
-- - `v1_attention`, `v1_changesets` and `_serve_v1_changeset` (Views): projections of WeftMark's board;
--   `v1_oversight` (Views/Oversight): what Ephor holds, with the calls on the trace of Decisions;
--   `v1_frog_kanban` (Views/Frog, with the checks of Views/Stamps): Frog's board; `v1_system`
--   (Views/System) with `runtime_snapshot` (Views/Runtime): the gateway and its host.
-- - `apply_command` (Decisions): Decisions/Check has the guards, Decisions/Hold the lookups of a hold,
--   Decisions/Audit the two records that enclose a decision, Decisions/Apply the branches. What the code
--   asks of other services is an explicit trace of events, to which the services answer by any function
--   of the trace so far.
-- - `DashPusher` (Dash): Dash/Commands takes the decisions in a response of Dash by `apply_command`,
--   Dash/Schedule has the waits, Dash/Step one round and one turn of `run`, Dash/Envelope the views of
--   a push and their limit, Dash/Targets the targets and the checks on them. The clock counts
--   nanoseconds.
--
-- The parts of the other programs:
--
-- - `pump`, `main`, `serve` and `session` of the bridge (Bridge): Bridge/Pump copies one direction,
--   Bridge/Main reads the command line, Bridge/Server is the listener as a machine on events: a
--   connection, a failed or a made start of a child, its end. Any order of events is a run of it.
-- - `inspect` of tools/oci_inspect.py (Oci/Inspect, with the reads of Oci/Disk): the walk over the
--   index and its artifacts, the graph of referrers, and the check for cycles.
-- - `validate`, `publish` and `verify` of tools/oci_handoff.py (Oci/Handoff, Oci/Publish, Oci/Verify),
--   on the files of a layout by their paths, in the order in which they are written.
-- - `probe` of tools/oci_registry_probe.py and `acquire` of tools/oci_registry_acquire.py: Oci/Registry
--   has the check of the registry's name and of its addresses, Oci/Connection the pinned connection,
--   Oci/Fetch and Oci/Probe the manifest, Oci/Plan what is to be fetched, Oci/Acquire the blobs and the
--   stage that becomes the destination. Oci/Act is the state and exception monad of both tools.
--
-- The handler takes Auth's `principal`, `login` and `logout`, the pusher takes Decisions' trace and
-- `apply_command`; all of them read JSON as Json has it, printed as by `json.dumps` (Json/Dumps; with
-- sorted keys in Json/Canonical). Texts are lists of code points (Prelude/Text), integers of Python are
-- Prelude/Int, dicts keep their order (Prelude/Dict), and code that changes a state and may raise is a
-- function of the state whose writes before a raise stay (Prelude/Exec).
--
-- Bounds and fuel. Every loop of the source runs over a list or a text and is structural recursion here,
-- but for two. Printing a number takes as many rounds as the number is large, plus one, which its digits do
-- not exceed. The check for cycles of the inspector follows subjects on fuel: one round more than there
-- are artifacts, since each round visits another one. Python's integers are unbounded, as those here are.
-- The limits of the source are kept: 20 commands in a response, 500 that are remembered, 64 KiB of a
-- response and of a login, the configured limit of a proxied body, the sessions of the bridge, and the
-- sizes and counts of the OCI tools.
--
-- Parameters, for code that is not of the repository: hash functions and random bytes, PyJWT, the
-- network (an answer or an exception), getaddrinfo and the replies of a registry, json.loads and the
-- printing of a float, the clock, the file system with os.path.realpath, the facts on a path that the
-- OCI tools ask for and which of their writes fail, mimetypes, urlsplit, ipaddress,
-- datetime.fromisoformat, `str` of a value that is no text, and urllib.parse.unquote. Configured texts
-- are taken to have no lone surrogate.
--
-- Not modelled: reading the configuration from the environment, and the views of the daily agenda and of
-- forges. The handler takes these, and the views of the system, of oversight and of Frog, as arguments; the
-- pusher's round takes what `views` returned. Nor are log messages, threads (each method of the store is
-- one step, as its lock makes it), TLS and sockets, `connect` of the bridge, which joins two pumps, or the
-- shell and Nix files.
pub mod Prelude
pub mod Json
pub mod Regex
pub mod Config
pub mod Auth
pub mod Decisions
pub mod Http
pub mod Views
pub mod Dash
pub mod Bridge
pub mod Oci
