-- ===== src/Decisions/Tests.antt =====
-- Runs of `apply_command` against a small world, and its theorems at concrete data.
use rebekah.Prelude.{ℕ, ◌≡◌, refl, true, Option, none, some, [], ◌∷◌, if◌then◌else◌}
use rebekah.Prelude.Int.{pos}
use rebekah.Prelude.Text.{codes, text_eq, strip, decimal}
use rebekah.Prelude.Sort.{quote}
use rebekah.Prelude.Dict.{lookup, insert}
use rebekah.Prelude.Exec.{ok}
use rebekah.Json.{Json, int, str, object, array, get, get_of, or_value}
use rebekah.Json.Dumps.{dumps_compact, dumps_with, text_of}
use rebekah.Regex.{is_command_id, is_request_id, is_actor}
use rebekah.Decisions.Calls.{
  Trace, audit, AuditEvent, World, Config, Raw, internal_json, nostoi_event,
}
use rebekah.Decisions.Check.{
  decide, Order, command_id, kind_of, reason, check_header, check_request, check_decide, verdict_of,
}
use rebekah.Decisions.Reports.{refusal, applied, bridge_report, chain_link}
use rebekah.Decisions.Audit.{decision_intent, decision_outcome, audited}
use rebekah.Decisions.Hold.{held, bridge, find_hold}
use rebekah.Decisions.Apply.{
  send_order, carry_out, check_order, on_hold, decide_hold, apply_addressed, apply_command,
}
use rebekah.Decisions.Protocol.{Protocol, apply_command-Protocol}
use rebekah.Decisions.Recorded.{apply_command_recorded}

abbrev config : Config
config = record {
  internal = (codes "ephor", record { host = codes "127.0.0.1"; port = 9800 }) ∷ [];
  mcp_gates = [];
  mcp_gate_token = [];
  ephor_oversight_token = codes "reviewer";
  weftmark_write_token = [];
}

abbrev replied : Json → Option (ℕ × Raw)
replied v = some (200, record { size = 100; parsed = some v })

-- An Ephor that holds `req1` until 500 and accepts every decision.
abbrev pending : Json
pending = object (
    (
      codes "action",
      object ((codes "status", str (codes "pending")) ∷ (codes "deadline_ms", int (pos 500)) ∷ []),
    )
    ∷ [])

abbrev decided : Json
decided = object ((codes "action", object ((codes "status", str (codes "approved")) ∷ [])) ∷ [])

abbrev world : World
world = record {
  exchange = λ t r. if text_eq r.method (codes "GET") then replied pending else replied decided;
  ask_gate = λ t r. none;
  append = λ t a. some (object ((codes "digest", str (codes "d1")) ∷ []));
  sha256 = λ s. codes "0";
}

abbrev command : Json
command = object (
    (codes "id", str (codes "command-1"))
    ∷ (codes "kind", str (codes "oversight.decide"))
    ∷ (codes "requested_by", str (codes "ann@example.org"))
    ∷ (
      codes "params",
      object (
          (codes "request_id", str (codes "req1"))
          ∷ (codes "decision", str (codes "approved"))
          ∷ (codes "rationale", str (codes " fine "))
          ∷ []),
    )
    ∷ [])

command_named : command_id command ≡ some (codes "command-1")
unfolding command_id get lookup text_eq is_command_id
command_named = refl

hold_found :
    (find_hold config world (codes "req1") []).0
    ≡ ok (
        held
          ((codes "status", str (codes "pending")) ∷ (codes "deadline_ms", int (pos 500)) ∷ [])
          bridge
          (int (pos 500)))
unfolding find_hold internal_json get lookup insert text_eq quote decimal
hold_found = refl

approved_in_time :
    (apply_command config world command 400 []).0
    ≡ ok (some (applied (codes "command-1") (some (codes "approved")) none))
unfolding apply_command command_id get lookup text_eq is_command_id apply_addressed check_header
    kind_of is_actor decide_hold check_request is_request_id reason strip find_hold internal_json
    insert quote decimal on_hold check_order check_decide verdict_of carry_out audited
    decision_intent nostoi_event dumps_compact dumps_with send_order bridge_report get_of or_value
    text_of chain_link decision_outcome
approved_in_time = refl

approved_late :
    (apply_command config world command 501 []).0
    ≡ ok (some (refusal (codes "command-1") (codes "deadline_passed")))
unfolding apply_command command_id get lookup text_eq is_command_id apply_addressed check_header
    kind_of is_actor decide_hold check_request is_request_id reason strip find_hold internal_json
    insert quote decimal on_hold check_order check_decide verdict_of
approved_late = refl

abbrev order : Order
order = record {
  verb = codes "escalate";
  verdict = none;
  target_queue = codes "q";
  defer_ms = 0;
  body = [];
}

-- A rationale with a lone surrogate has no hash: the command fails before anything is announced.
surrogate_refused :
    (carry_out config world
      (codes "command-1")
      (codes "a@b")
      decide
      (codes "req1")
      (0xd800 ∷ [])
      bridge
      order
      [])
    ≡ (ok (refusal (codes "command-1") (codes "audit_unavailable")), [])
unfolding carry_out audited
surrogate_refused = refl

-- `$` lets a newline at the end of an id pass.
newline_admitted : is_command_id (codes "command-1\n") ≡ true
unfolding is_command_id
newline_admitted = refl

apply_command-Protocol_example :
    Protocol (codes "command-1") [] (apply_command config world command 400 []).1
apply_command-Protocol_example =
    apply_command-Protocol config world command 400 [] (codes "command-1") command_named

apply_command_recorded_example :
    (a : AuditEvent) × (u : Trace) × ((apply_command config world command 400 []).1
      ≡ audit a true ∷ u)
    × (a.kind ≡ codes "rebekah.decision.completed")
    × (a.subject ≡ codes "command-1")
apply_command_recorded_example =
    apply_command_recorded config world command 400 [] (codes "command-1")
      (applied (codes "command-1") (some (codes "approved")) none) command_named approved_in_time
      refl

-- An Ephor that answers a decision with 500 and a list.
abbrev odd_world : World
odd_world = record world {
  exchange = λ t r. some (500, record { size = 4; parsed = some (array (int (pos 1) ∷ [])) });
}
