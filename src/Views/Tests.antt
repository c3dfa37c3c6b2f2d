-- ===== src/Views/Tests.antt =====
-- The views at a small board, and their theorems at its data.
use rebekah.Prelude.{refl, true, List, [], ◌∷◌, ◌++◌, length}
use rebekah.Prelude.Text.{Text, codes, text_eq, starts_with}
use rebekah.Json.{Json, null, str, object, array, get, get_of, iterate, is_truthy, or_value}
use rebekah.Views.Kanban.{values}
use rebekah.Views.ChangeSet.{evidence_refs, claim_refs, system_refs}
use rebekah.Decisions.Calls.{Config, World, internal_json, gate_rpc}
use rebekah.Views.Oversight.{
  holds, ask_bridge, ask_gates, gate_items, hold_item, flags_of, slice_of, argument_strings,
}
use rebekah.Views.Bounded.{IsBounded, holds-IsBounded}
use rebekah.Decisions.Reports.{result_field}
use rebekah.Json.Dumps.{text_of}
use rebekah.Prelude.{All, ◌≤◌, none, some}
use rebekah.Prelude.Dict.{lookup}
use rebekah.Prelude.Sort.{sorted}
use rebekah.Views.Genuine.{IsGenuine, Cited, system_refs-IsGenuine}

-- A change set with two reasons, a plan card with one.
abbrev change_card : Json
change_card = object (
    (codes "id", str (codes "cs1"))
    ∷ (codes "kind", str (codes "change_set"))
    ∷ (codes "attention", array (str (codes "stale") ∷ str (codes "review") ∷ []))
    ∷ [])

abbrev plan_card : Json
plan_card =
    object (
      (codes "id", str (codes "t1")) ∷ (codes "attention", array (str (codes "blocked") ∷ [])) ∷ [])

abbrev board : Json
board = object (
    (codes "cards", array (change_card ∷ plan_card ∷ []))
    ∷ (codes "plan_cards", array (plan_card ∷ []))
    ∷ [])

abbrev item : Text → Text → Text → List (Text × Json) → Json
item id kind reason rest = object (
    (codes "id", str id)
    ∷ (codes "kind", str kind)
    ∷ (codes "title", str id)
    ∷ (codes "lane", null)
    ∷ (codes "reason", str reason)
    ∷ rest)

abbrev items : List Json
items =
    item (codes "cs1") (codes "change_set") (codes "stale")
      ((codes "change_set", str (codes "cs1")) ∷ (codes "source", str (codes "weftmark")) ∷ [])
    ∷ item (codes "cs1") (codes "change_set") (codes "review")
        ((codes "change_set", str (codes "cs1")) ∷ (codes "source", str (codes "weftmark")) ∷ [])
    ∷ item (codes "t1") (codes "change_set") (codes "blocked")
        ((codes "change_set", str (codes "t1")) ∷ (codes "source", str (codes "weftmark")) ∷ [])
    ∷ item (codes "t1") (codes "task") (codes "blocked")
        ((codes "source", str (codes "weftmark")) ∷ [])
    ∷ []

abbrev row : Json
row = object (
    (codes "id", str (codes "cs1"))
    ∷ (codes "title", str (codes "cs1"))
    ∷ (codes "lane", null)
    ∷ (codes "lifecycle_state", null)
    ∷ (codes "readiness", null)
    ∷ (codes "evidence", object ((codes "total", null) ∷ (codes "current", null) ∷ []))
    ∷ (codes "attention", array (str (codes "stale") ∷ str (codes "review") ∷ []))
    ∷ [])

-- A past run that also left an artifact, and a worker that holds the change set now.
abbrev evidence : List Json
evidence =
    object (
      (codes "id", str (codes "ev1"))
      ∷ (codes "producer", object ((codes "id", str (codes "sylvae:run/7")) ∷ []))
      ∷ (codes "artifacts", array (str (codes "sylvae:run/7") ∷ str (codes "file:x") ∷ []))
      ∷ [])
    ∷ []

abbrev claims : List Json
claims =
    object ((codes "id", str (codes "c1")) ∷ (codes "session", str (codes "sylvae:run/8")) ∷ [])
    ∷ []

abbrev runs : List Json
runs =
    object ((codes "id", str (codes "sylvae:run/7")) ∷ (codes "evidence", str (codes "ev1")) ∷ [])
    ∷ object (
        (codes "id", str (codes "sylvae:run/8"))
        ∷ (codes "claim", str (codes "c1"))
        ∷ (codes "active", Json.boolean true)
        ∷ [])
    ∷ []

system_refs-IsGenuine_example :
    (seen : List Text) × IsGenuine (codes "sylvae" ++ codes ":") (Cited evidence claims) seen runs
unfolding get get_of iterate or_value is_truthy text_eq starts_with values evidence_refs claim_refs
    system_refs
system_refs-IsGenuine_example = system_refs-IsGenuine (codes "sylvae") evidence claims runs refl

-- An Ephor whose bridge does not answer and that has no gate.
abbrev services : Config
services = record {
  internal = [];
  mcp_gates = ([], record { host = codes "h"; port = 1 }) ∷ [];
  mcp_gate_token = codes "t";
  ephor_oversight_token = [];
  weftmark_write_token = [];
}

abbrev held_action : Json
held_action = object (
    (codes "status", str (codes "pending"))
    ∷ (codes "action", str (codes "push"))
    ∷ (codes "arguments", array (str (codes "a") ∷ []))
    ∷ [])

abbrev world : World
world = record {
  exchange = λ t r. none;
  ask_gate = λ t r. some record {
    size = 9;
    parsed =
        some (
          object
            ((codes "result", object ((codes "actions", array (held_action ∷ [])) ∷ [])) ∷ []));
  };
  append = λ t a. none;
  sha256 = λ s. s;
}

abbrev shown : Json
shown = object (
    (codes "request_id", null)
    ∷ (codes "status", str (codes "pending"))
    ∷ (codes "agent_class", null)
    ∷ (codes "action", str (codes "push"))
    ∷ (codes "arguments", array (str (codes "a") ∷ []))
    ∷ (codes "risk_level", null)
    ∷ (codes "risk_flags", array [])
    ∷ (codes "deadline", null)
    ∷ (codes "entry_id", null)
    ∷ (codes "source", str (codes "mcp:"))
    ∷ [])

holds-IsBounded_example : (length (shown ∷ []) ≤ 100) × All IsBounded (shown ∷ [])
unfolding holds ask_bridge internal_json lookup ask_gates sorted result_field gate_rpc text_eq
    get_of or_value gate_items hold_item flags_of iterate slice_of text_of argument_strings
holds-IsBounded_example = holds-IsBounded (λ v. null) services world [] true (shown ∷ []) refl
