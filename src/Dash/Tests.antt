-- ===== src/Dash/Tests.antt =====
-- A pusher with one command of an unknown kind, and the theorems on the pusher at its data.
use rebekah.Prelude.{
  length, ◌≤◌, ℕ, ◌≡◌, refl, Bool, true, false, Option, none, some, [], ◌∷◌, arith, if◌then◌else◌,
}
use rebekah.Prelude.Int.{pos}
use rebekah.Prelude.Text.{Text, codes, text_eq, is_member}
use rebekah.Prelude.Dict.{Dict, lookup, insert, erase}
use rebekah.Prelude.Exec.{ok}
use rebekah.Json.{Json, str, int, object, array, get}
use rebekah.Regex.{is_command_id}
use rebekah.Decisions.Calls.{World, Config, Trace}
use rebekah.Decisions.Check.{command_id, kind_of, check_header}
use rebekah.Decisions.Reports.{refusal}
use rebekah.Decisions.Apply.{apply_command, apply_addressed}
use rebekah.Dash.Pusher.{Settings, Pusher}
use rebekah.Dash.Calls.{Network, call, data_of, retry_of}
use rebekah.Dash.Commands.{
  max_remembered, take_commands, take_each, take_command, apply_new, report, drop_acknowledged,
}
use rebekah.Dash.Step.{Round, is_due, turn, step, exchange, handle_answer, standing, accept}
use rebekah.Dash.Targets.{Url, DashConfig, start_dash_pushers}
use rebekah.Dash.Admission.{start_dash_pushers_mirror}
use rebekah.Dash.Resending.{take_commands_again, take_commands_bounded}
use rebekah.Dash.Urgency.{turn-is_due}
use rebekah.Dash.Acknowledged.{report-acknowledged}

abbrev services : Config
services = record {
  internal = [];
  mcp_gates = [];
  mcp_gate_token = [];
  ephor_oversight_token = [];
  weftmark_write_token = [];
}

abbrev world : World
world = record {
  exchange = λ t r. none;
  ask_gate = λ t r. none;
  append = λ t a. none;
  sha256 = λ s. s;
}

abbrev settings : Bool → Settings
settings commands = record {
  dash_poll = 60;
  dash_heartbeat = 300;
  ephor_enabled = true;
  commands = commands;
  prefix = [];
  dash_key = codes "k";
}

abbrev command : Json
command = object ((codes "id", str (codes "command-1")) ∷ (codes "kind", str (codes "x")) ∷ [])

abbrev response : Option (Dict Json)
response =
    some (
      (codes "commands", array (command ∷ command ∷ []))
      ∷ (codes "poll_interval", int (pos 7))
      ∷ [])

abbrev fresh : Pusher
fresh = record {
  last_digest = none;
  last_push = none;
  last_call = none;
  poll_every = 60;
  refresh = false;
  failures = 0;
  unreported = [];
  applied = [];
  trace = [];
}

abbrev wall : Trace → ℕ
wall t = 0

abbrev taken : Pusher
taken = (take_commands services world wall response fresh).1

response_ran : (take_commands services world wall response fresh).0 ≡ ok true
unfolding take_commands get text_eq take_each take_command apply_new apply_command command_id
    is_command_id apply_addressed check_header kind_of insert
response_ran = refl

take_commands_again_example :
    ((take_commands services world wall response taken).0 ≡ ok false)
    × ((take_commands services world wall response taken).1.trace ≡ taken.trace)
    × ((take_commands services world wall response taken).1.applied ≡ taken.applied)
take_commands_again_example =
    take_commands_again services world wall response fresh true (omega arith) response_ran

take_commands_bounded_example : length taken.applied ≤ max_remembered
take_commands_bounded_example =
    take_commands_bounded services world wall response fresh true (omega arith) response_ran

-- A Dash that answers every request with the commands.
abbrev network : Network
network = record {
  send = λ method path headers payload. some record { status = 200; body = []; retry_after = none };
  loads = λ raw. some (
      object (
        (codes "commands", array (command ∷ []))
        ∷ (codes "acknowledged", array (str (codes "command-1") ∷ []))
        ∷ []));
}

abbrev round : Round
round = record { now = 10; views = ok []; next_push_at = pos 310; network = network }

abbrev sha256 : Text → Text
sha256 s = s

abbrev of_float : Text → ℕ
of_float t = 1

turn-is_due_example :
    is_due
      (settings true)
      11
      (codes "d")
      (turn (settings true) services world wall of_float sha256 round fresh).1
    ≡ true
unfolding turn step is_due handle_answer exchange call standing accept take_commands data_of report
    retry_of drop_acknowledged erase get text_eq take_each take_command apply_new apply_command
    command_id is_command_id apply_addressed check_header kind_of insert
turn-is_due_example =
    turn-is_due of_float (λ t. omega arith) (settings true) (omega arith) services world wall round
      sha256 fresh 11 (codes "d") refl

abbrev refused : Pusher
refused = record fresh {
  unreported =
      (codes "command-1", refusal (codes "command-1") (codes "x"))
      ∷ (codes "command-2", refusal (codes "command-2") (codes "x"))
      ∷ [];
}

report-acknowledged_example :
    lookup (codes "command-2") (report (settings true) network refused).1.unreported ≡ (
      if is_member (codes "command-2") (codes "command-1" ∷ [])
      then none
      else lookup (codes "command-2") refused.unreported)
unfolding call data_of get text_eq retry_of
report-acknowledged_example =
    report-acknowledged (settings true) network refused
      (record {
        status = 200;
        parsed = some (
            (codes "commands", array (command ∷ []))
            ∷ (codes "acknowledged", array (str (codes "command-1") ∷ []))
            ∷ []);
        retry = none;
      })
      (codes "command-1" ∷ []) (codes "command-2") refl refl refl

abbrev key : Text
key = codes "rbkp_0123456789ab_0123456789012345678901234567890123456789012"

abbrev mirror : Text × Text
mirror = (codes "http://localhost:8787", key)

abbrev mirrored : DashConfig
mirrored = record {
  dash_url = [];
  dash_push_key = [];
  dash_mirrors = mirror ∷ [];
  dash_poll = pos 60;
  dash_heartbeat = pos 300;
}

abbrev urlsplit : Text → Url
urlsplit s = record {
  scheme = codes "http";
  hostname = some (codes "localhost");
  username = none;
  password = none;
  query = [];
  fragment = [];
}

start_dash_pushers_mirror_example : start_dash_pushers mirrored ≡ (mirror, true) ∷ []
start_dash_pushers_mirror_example = start_dash_pushers_mirror mirrored mirror [] refl refl

abbrev primary : DashConfig
primary = record mirrored { dash_url = codes "https://dash"; dash_push_key = key }
