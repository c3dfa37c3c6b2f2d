-- ===== src/Dash/Pusher.antt =====
-- The state of one `DashPusher` of nix/gateway.py and its settings. The clock counts nanoseconds.
use rebekah.Prelude.{ℕ, Bool, Option, none, some, [], ◌∷◌, ◌++◌, false}
use rebekah.Prelude.Text.{Text, codes}
use rebekah.Prelude.Dict.{Dict}
use rebekah.Json.{Json, boolean, str, object, null}
use rebekah.Decisions.Calls.{Trace}
use rebekah.Decisions.Reports.{Report}

-- Seconds, as `Config` checks them; `ephor_enabled` is `cfg.ephor_state == "enabled"`.
pub record Settings : Type 0 where
  pub dash_poll : ℕ
  pub dash_heartbeat : ℕ
  pub ephor_enabled : Bool
  pub commands : Bool
  pub prefix : Text
  pub dash_key : Text

-- `trace` is what the decisions have done so far.
pub record Pusher : Type 0 where
  pub last_digest : Option Text
  pub last_push : Option ℕ
  pub last_call : Option ℕ
  pub poll_every : ℕ
  pub refresh : Bool
  pub failures : ℕ
  pub unreported : Dict Report
  pub applied : Dict Report
  pub trace : Trace

-- `__init__`
unfoldable pub new_pusher : Settings → Trace → Pusher
new_pusher cfg trace = record {
  last_digest = none;
  last_push = none;
  last_call = none;
  poll_every = cfg.dash_poll;
  refresh = false;
  failures = 0;
  unreported = [];
  applied = [];
  trace = trace;
}

abbrev pub second : ℕ
second = 1000000000

-- A report as JSON, without the keys that it lacks.
abbrev text_or_null : Option Text → Json
text_or_null none = null
text_or_null (some s) = str s

abbrev outcome_entry : Option (Option Text) → Dict Json
outcome_entry none = []
outcome_entry (some outcome) = (codes "outcome", text_or_null outcome) ∷ []

abbrev chain_entries : Option (Text × Text) → Dict Json
chain_entries none = []
chain_entries (some (entry, hash)) =
    (codes "chain_entry_id", str entry) ∷ (codes "chain_hash", str hash) ∷ []

abbrev error_entry : Option Text → Dict Json
error_entry none = []
error_entry (some e) = (codes "error", str e) ∷ []

unfoldable pub report_json : Report → Json
report_json r = object (
    (codes "id", str r.id)
    ∷ (codes "ok", boolean r.ok)
    ∷ (outcome_entry r.outcome ++ (chain_entries r.chain ++ error_entry r.error)))
