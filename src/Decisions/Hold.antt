-- ===== src/Decisions/Hold.antt =====
-- Where a hold is: the lookup of `apply_command` in nix/gateway.py, at Ephor's bridge and then at each
-- MCP gate.
use rebekah.Prelude.{
  ℕ, Bool, true, false, not, Option, none, some, List, [], ◌∷◌, ◌++◌, map, ◌==◌, if◌then◌else◌,
  find,
}
use rebekah.Prelude.Text.{Text, codes, text_eq}
use rebekah.Prelude.Sort.{sorted, quote}
use rebekah.Prelude.Dict.{Dict}
use rebekah.Prelude.Exec.{ok, err, Raised, Exec}
use rebekah.Json.{Json, str, as_dict, as_list, get, dict_or_nil}
use rebekah.Decisions.Calls.{Trace, World, Config, internal_json, gate_rpc}
use rebekah.Decisions.Reports.{result_field}

-- The Ephor surface that holds a request: the bridge, or one of the MCP gates.
pub data Surface : Type 0 where
  bridge : Surface
  gate : Text → Surface

pub data Lookup : Type 0 where
  held : Dict Json → Surface → Json → Lookup
  missing : Bool → Lookup

-- The action of a list that has the request id.
abbrev pub names_request : Text → Json → Bool
names_request request_id v = elim (as_dict v) [
  | none ↦ false
  | some d ↦ elim (get d (codes "request_id")) [ str s ↦ text_eq s request_id | _ ↦ false ]
]

-- What a gate's list says of a request.
pub data Seen : Type 0 where
  crashed : Raised → Seen
  down elsewhere : Seen
  here : Dict Json → Seen

abbrev among : Option Json → Seen
among none = elsewhere
among (some action) = here (dict_or_nil (some action))

abbrev in_actions : Text → Option (List Json) → Seen
in_actions request_id none = down
in_actions request_id (some actions) = among (find (names_request request_id) actions)

unfoldable pub read_list : Text → Option (Dict Json) → Seen
read_list request_id reply = elim (result_field reply (codes "actions")) [
  | err e ↦ crashed e
  | ok v ↦ in_actions request_id (as_list v)
]

module _ (cfg : Config) (w : World) where
  -- What the body of the loop does with one gate: go on, with the gate counted as unreachable or
  -- not, or break with the action.
  abbrev pub after_gate : Seen → Text → (Bool → Exec Trace Lookup) → Bool → Exec Trace Lookup
  after_gate (crashed e) name go_on unreachable t = (err e, t)
  after_gate down name go_on unreachable t = go_on true t
  after_gate elsewhere name go_on unreachable t = go_on unreachable t
  after_gate (here d) name go_on unreachable t =
      (ok (held d (gate name) (get d (codes "deadline_unix_ms"))), t)

  -- The loop over the gates: one that does not answer leaves it open where the hold is.
  unfoldable pub search_gates : Text → List Text → Bool → Exec Trace Lookup
  search_gates request_id [] unreachable t = (ok (missing unreachable), t)
  search_gates request_id (name ∷ names) unreachable t =
      let (reply, u) = gate_rpc cfg w name (codes "oversight.list") [] t in
      after_gate (read_list request_id reply) name (search_gates request_id names) unreachable u

  abbrev pub is_reached : Option ℕ → Bool
  is_reached none = false
  is_reached (some n) = true

  -- The hold as the bridge shows it.
  abbrev pub on_bridge : Option ℕ → Json → Option (Dict Json)
  on_bridge none reply = none
  on_bridge (some status) reply =
      if status == 200
      then (elim (as_dict reply) [ none ↦ none | some d ↦ as_dict (get d (codes "action")) ])
      else none

  abbrev pub or_search : Option (Dict Json) → Exec Trace Lookup → Exec Trace Lookup
  or_search (some d) search t = (ok (held d bridge (get d (codes "deadline_ms"))), t)
  or_search none search t = search t

  -- `sorted(cfg.mcp_gates)`
  abbrev pub gate_names : List Text
  gate_names = sorted (map (λ (name, e). name) cfg.mcp_gates)

  unfoldable pub find_hold : Text → Exec Trace Lookup
  find_hold request_id t =
      let (reply, u) =
        internal_json cfg w (codes "ephor") (codes "GET")
          (codes "/oversight/fetch/" ++ quote request_id) none none [] t in
      or_search (on_bridge reply.0 reply.1)
        (search_gates request_id gate_names (not (is_reached reply.0))) u
