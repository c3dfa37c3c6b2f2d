-- ===== src/Http/Handler.antt =====
-- `Handler._handle` of nix/gateway.py and the endpoints behind its routes.
use rebekah.Prelude.{
  ℕ, Bool, not, ◌||◌, Option, none, some, List, [], ◌∷◌, ◌++◌, map, if◌then◌else◌, is_some,
}
use rebekah.Prelude.Int.{ℤ, pos, int_ltb}
use rebekah.Prelude.Text.{Text, codes, text_eq, is_empty, partition}
use rebekah.Prelude.Sort.{sorted, quote}
use rebekah.Prelude.Dict.{Dict, lookup}
use rebekah.Prelude.Exec.{Result, ok, err, Raised, Exec, pure, lift, ◌>>=◌}
use rebekah.Json.{Json, boolean, int, str, object, array, as_dict}
use rebekah.Auth.Store.{Hashes}
use rebekah.Auth.Principal
use rebekah.Auth.Principal.{Authenticator}
use rebekah.Views.Kanban
use rebekah.Views.ChangeSet.{Found, unreachable, absent, view, change_set}
use rebekah.Http.Message.{Request, Response, header, content_length, read, is_write, fail, json}
use rebekah.Http.Upstream.{Backend, Call, Reply, call_of, relay, backend_get_json, fetch_kanban}
use rebekah.Http.Pages.{Files, serve_ui}
use rebekah.Http.Routes.{Route, route, raw_path}

-- The settings that the handler reads.
pub record Config : Type 0 where
  pub ui_enabled : Bool
  pub ui_dir : Text
  pub backends : Dict Backend
  pub max_body : ℤ

-- What the process finds around it: the clock, `secrets.token_urlsafe(32)`, `json.loads`, the
-- `str` of a value that is no text, `urllib.parse.unquote`, and the files.
pub record Machine : Type 0 where
  pub now : ℕ
  pub iso_now : Text
  pub fresh : Text
  pub hashes : Hashes
  pub loads : List ℕ → Option Json
  pub display : Json → Text
  pub unquote : Text → Text
  pub files : Files

-- What only a principal may see: the views of the other components, and the backends' answers.
pub record Private : Type 0 where
  pub system : Authenticator → Result Raised Json
  pub oversight : Result Raised Json
  pub daily_agenda : Result Raised Json
  pub frog_kanban : Result Raised Json
  pub change_requests : Result Raised Json
  pub upstream : Call → Option Reply

-- The authenticator, and the calls that were passed to a backend for a client, newest first.
pub record Server : Type 0 where
  pub auth : Authenticator
  pub calls : List Call

unfoldable pub unauthorized : Request → Response
unauthorized r =
    fail r 401 "unauthorized" ((codes "WWW-Authenticate", codes "Bearer realm=\"rebekah\"") ∷ [])

-- `str(data.get(key, ""))`
abbrev text_of : (Json → Text) → Option Json → Text
text_of display none = []
text_of display (some (str s)) = s
text_of display (some v) = display v

abbrev credentials_of : (Json → Text) → Option Json → Option (Text × Text)
credentials_of display none = none
credentials_of display (some v) = elim (as_dict v) [
  | none ↦ none
  | some d ↦
      some (
        text_of display (lookup (codes "username") d),
        text_of display (lookup (codes "password") d),
      )
]

module _ (m : Machine) (cfg : Config) (r : Request) where
  unfoldable pub authed : Exec Server (Option Text)
  authed s =
      let (who, a) =
        Principal.principal m.hashes m.now (header (codes "Authorization") r.headers) s.auth in
      (who, record s { auth = a })

  abbrev pub let_in : (Text → Exec Server Response) → Option Text → Exec Server Response
  let_in serve none = pure (unauthorized r)
  let_in serve (some name) = serve name

  -- What follows `if self._authed() is None: return`.
  unfoldable pub guarded : (Text → Exec Server Response) → Exec Server Response
  unfolding authed
  guarded serve = authed >>= let_in serve

  abbrev pub view_of : Result Raised Json → Exec Server Response
  view_of v = lift v >>= λ found. pure (json r 200 found)

  abbrev pub read_only : Result Raised Json → Exec Server Response
  read_only v = if is_write r then pure (fail r 405 "read only" []) else view_of v

  -- `_serve_auth`
  unfoldable pub serve_auth : Exec Server Response
  serve_auth s =
      pure
        (json r 200 (
          object (
            (codes "password", boolean (is_some s.auth.passwords))
            ∷ (codes "token_auth", boolean (not (is_empty s.auth.token)))
            ∷ [])))
        s

  abbrev parsed_body : ℤ → Option Json
  parsed_body n =
      if int_ltb n (pos 0) || int_ltb (pos 0) n then m.loads (read n r.stream) else some (object [])

  abbrev pub logged_in : Text → Result Raised (Option (Text × ℤ)) → Result Raised Response
  logged_in username (err e) = err e
  logged_in username (ok none) = ok (fail r 401 "invalid credentials" [])
  logged_in username (ok (some (token, expires))) = ok (
      json r 200 (
        object (
          (codes "token", str token)
          ∷ (codes "user", str username)
          ∷ (codes "expires", int expires)
          ∷ [])))

  abbrev pub log_in : Option (Text × Text) → Exec Server Response
  log_in none s = pure (fail r 400 "invalid json" []) s
  log_in (some (username, password)) s =
      let (result, a) = Principal.login m.hashes m.fresh m.now username password s.auth in
      (logged_in username result, record s { auth = a })

  -- `_serve_login`
  abbrev pub login_body : ℤ → Exec Server Response
  login_body n =
      if int_ltb (pos 65536) n
      then pure (fail r 413 "payload too large" [])
      else log_in (credentials_of m.display (parsed_body n))

  unfoldable pub serve_login : Exec Server Response
  serve_login =
      if not (text_eq r.method (codes "POST"))
      then pure (fail r 405 "method not allowed" [])
      else lift (content_length r) >>= login_body

  -- `_serve_logout`
  unfoldable pub serve_logout : Exec Server Response
  serve_logout s =
      if not (text_eq r.method (codes "POST"))
      then (ok (fail r 405 "method not allowed" []), s)
      else (
        ok (fail r 200 "ok" []),
        record s {
          auth = Principal.logout m.hashes (header (codes "Authorization") r.headers) s.auth;
        },
      )

  abbrev or_scheme : Text → Text → Text
  or_scheme [] scheme = scheme
  or_scheme (c ∷ name) scheme = c ∷ name

  -- `_serve_v1_session`
  unfoldable pub session_view : Text → Json
  unfolding partition
  session_view principal =
      let (scheme, found, name) = partition 58 principal in
      object (
        (codes "schema", str (codes "rebekah.session.v1"))
        ∷ (codes "observed_at", str m.iso_now)
        ∷ (codes "source", str (codes "rebekah-gateway"))
        ∷ (codes "principal", str (or_scheme name scheme))
        ∷ (codes "auth", str scheme)
        ∷ (codes "profile", str (codes "administrator"))
        ∷ (
          codes "capabilities",
          array (
              str (codes "observe")
              ∷ str (codes "review")
              ∷ str (codes "operate")
              ∷ str (codes "administer")
              ∷ []),
        )
        ∷ [])

  abbrev scheme_names : Authenticator → List Text
  scheme_names a =
      (if is_empty a.token then [] else codes "token" ∷ [])
      ++ ((if is_some a.passwords then codes "password" ∷ [] else [])
          ++ (if is_some a.oidc then codes "oidc" ∷ [] else []))

  -- `_serve_info`
  unfoldable pub info_view : Authenticator → Json
  info_view a = object (
      (codes "service", str (codes "rebekah-gateway"))
      ∷ (codes "expose", array (map str (sorted (map (λ b. b.0) cfg.backends))))
      ∷ (codes "auth", array (map str (scheme_names a)))
      ∷ (codes "ui", boolean cfg.ui_enabled)
      ∷ [])

  module _ (p : Private) where
    abbrev kanban : Json
    kanban = fetch_kanban m.loads p.upstream cfg.backends

    abbrev pub found_view : Found → Response
    found_view unreachable = fail r 502 "upstream unavailable" []
    found_view absent = fail r 404 "not found" []
    found_view (view v) = json r 200 v

    -- `_serve_v1_changeset`
    unfoldable pub serve_change_set : Text → Exec Server Response
    serve_change_set id =
        lift (
          change_set m.iso_now id kanban (
            backend_get_json m.loads p.upstream cfg.backends (codes "weftmark")
              (codes "/v0/kanban/changes/" ++ quote id)))
        >>= λ found. pure (found_view found)

    abbrev pub answer : Option Reply → Response
    answer none = fail r 502 "bad gateway" []
    answer (some reply) = relay r reply

    -- One call, which the server remembers.
    unfoldable pub forward : Call → Exec Server Response
    forward call s = (ok (answer (p.upstream call)), record s { calls = call ∷ s.calls })

    abbrev pub send_body : Backend → Text → ℤ → Exec Server Response
    send_body b first n =
        if int_ltb cfg.max_body n
        then pure (fail r 413 "payload too large" [])
        else forward (call_of b first r (read n r.stream))

    unfoldable pub send_on : Backend → Text → Exec Server Response
    send_on b first = lift (content_length r) >>= send_body b first

    -- Only the bounded read API of Frog is exposed.
    unfoldable pub serve_frog : Exec Server Response
    serve_frog =
        if is_write r
        then pure (fail r 405 "read only" [])
        else if not (text_eq (raw_path r.path) (codes "/frog/api/v1/kanban"))
        then pure (fail r 404 "not found" [])
        else view_of p.frog_kanban

    abbrev pub proxy_to : Text → Option Backend → Exec Server Response
    proxy_to first none = pure (fail r 404 "not found" [])
    proxy_to first (some b) =
        guarded (λ name. if text_eq first (codes "frog") then serve_frog else send_on b first)

    unfoldable pub proxy : Text → Exec Server Response
    proxy first = proxy_to first (lookup first cfg.backends)

    -- The endpoint of a route.
    unfoldable pub serve : Route → Exec Server Response
    serve Route.healthz = pure (fail r 200 "ok" [])
    serve Route.index =
        if is_write r
        then pure (fail r 405 "method not allowed" [])
        else pure (serve_ui m.files cfg.ui_dir (codes "index.html") r)
    serve (Route.ui rel) = pure (serve_ui m.files cfg.ui_dir rel r)
    serve Route.auth = serve_auth
    serve Route.login = serve_login
    serve Route.logout = serve_logout
    serve Route.session = guarded (λ name. pure (json r 200 (session_view name)))
    serve Route.system = guarded (λ name s. view_of (p.system s.auth) s)
    serve Route.oversight = guarded (λ name. view_of p.oversight)
    serve Route.daily_agenda = guarded (λ name.
        if is_write r then pure (fail r 405 "method not allowed" []) else view_of p.daily_agenda)
    serve Route.frog_kanban = guarded (λ name. read_only p.frog_kanban)
    serve Route.attention = guarded (λ name. view_of (Kanban.attention m.iso_now kanban))
    serve Route.change_sets = guarded (λ name. view_of (Kanban.change_sets m.iso_now kanban))
    serve Route.change_requests = guarded (λ name. view_of p.change_requests)
    serve (Route.change_set id) = guarded (λ name. serve_change_set id)
    serve Route.info = guarded (λ name s. pure (json r 200 (info_view s.auth)) s)
    serve Route.unknown = pure (fail r 404 "not found" [])
    serve (Route.backend first) = proxy first

    -- `_handle`
    unfoldable pub handle : Exec Server Response
    handle = serve (route cfg.ui_enabled m.unquote r.path)
