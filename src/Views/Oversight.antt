-- ===== src/Views/Oversight.antt =====
-- `v1_oversight` of nix/gateway.py: the actions that Ephor holds for a human decision, from its bridge
-- and from the MCP gates, each bounded.
use rebekah.Prelude.{
  ℕ, Bool, true, false, not, Option, none, some, List, [], ◌∷◌, ◌++◌, map, length, take,
  if◌then◌else◌, ◌==◌,
}
use rebekah.Prelude.Int.{pos}
use rebekah.Prelude.Text.{Text, codes, text_eq, is_empty}
use rebekah.Prelude.Sort.{text_lt, sorted}
use rebekah.Prelude.Dict.{Dict}
use rebekah.Prelude.Exec.{Result, ok, err, Raised, type_error, Exec, pure, ◌>>=◌}
use rebekah.Json.{
  Json, null, boolean, int, str, arr, obj, object, array, as_dict, as_list, get, iterate, or_value,
  or_list, is_null, elements, entries, dict_or_nil,
}
use rebekah.Json.Dumps.{spelled, text_of}
use rebekah.Decisions.Calls.{Trace, World, Config, internal_json, gate_rpc}
use rebekah.Decisions.Reports.{result_field}

-- `_text` as JSON.
abbrev pub text_json : Option Text → Json
text_json none = null
text_json (some s) = str s

abbrev pub text_field : Json → ℕ → Json
text_field v limit = text_json (text_of v limit)

-- `sorted(arguments.items())`
abbrev pub insert_entry : Text × Json → List (Text × Json) → List (Text × Json)
insert_entry e [] = e ∷ []
insert_entry e (f ∷ fs) = if text_lt e.0 f.0 then e ∷ f ∷ fs else f ∷ insert_entry e fs

abbrev pub sorted_entries : List (Text × Json) → List (Text × Json)
sorted_entries [] = []
sorted_entries (e ∷ es) = insert_entry e (sorted_entries es)

-- `_argument_strings`
unfoldable pub argument_strings : Json → List Json
argument_strings (obj fs) =
    map (λ e. str (e.0 ++ (codes "=" ++ spelled e.1))) (sorted_entries (entries fs))
argument_strings (arr vs) = elements vs
argument_strings null = []
argument_strings v = v ∷ []

-- `v[:n]` of a value from JSON.
unfoldable pub slice_of : ℕ → Json → Result Raised (List Json)
slice_of n (arr vs) = ok (take n (elements vs))
slice_of n (str s) = ok (map (λ c. str (c ∷ [])) (take n s))
slice_of n _ = err type_error

abbrev pub dict_of : Json → Dict Json
dict_of v = dict_or_nil (some v)

-- `[v.get("rule_id") for v in violations if isinstance(v, dict)]`
abbrev rule_ids : List Json → List Json
rule_ids [] = []
rule_ids (v ∷ vs) =
    let rest = rule_ids vs in
    elim (as_dict v) [ none ↦ rest | some d ↦ get d (codes "rule_id") ∷ rest ]

abbrev pub rules_of : Result Raised (List Json) → Result Raised Json
rules_of (ok violations) = ok (array (rule_ids violations))
rules_of (err e) = err e

-- The risk flags of a hold, or the rules that its policy says were violated.
unfoldable pub flags_of : Dict Json → Dict Json → Result Raised Json
flags_of held policy =
    if is_null (get held (codes "risk_flags"))
    then rules_of (iterate (or_list (get policy (codes "violations"))))
    else ok (get held (codes "risk_flags"))

abbrev pub bounded_all : ℕ → List Json → Json
bounded_all limit vs = array (map (λ v. text_field v limit) vs)

module _ (iso_ms : Json → Json) where
  abbrev pub item_of : Dict Json → Text → Json → Dict Json → Dict Json → List Json → Json
  item_of held source deadline evidence policy flags = object (
      (codes "request_id", text_field (get held (codes "request_id")) 80)
      ∷ (codes "status", text_field (get held (codes "status")) 40)
      ∷ (
        codes "agent_class",
        text_field (or_value (get held (codes "agent_class")) (get evidence (codes "agent_class")))
            80,
      )
      ∷ (codes "action", text_field (get held (codes "action")) 200)
      ∷ (
        codes "arguments",
        bounded_all 200 (take 10 (argument_strings (get held (codes "arguments")))),
      )
      ∷ (
        codes "risk_level",
        text_field (or_value (get held (codes "risk_level")) (get policy (codes "risk_level"))) 40,
      )
      ∷ (codes "risk_flags", bounded_all 80 flags)
      ∷ (codes "deadline", iso_ms deadline)
      ∷ (
        codes "entry_id",
        text_field (or_value (get held (codes "entry_id")) (get evidence (codes "entry_id"))) 80,
      )
      ∷ (codes "source", str source)
      ∷ [])

  abbrev pub flagged :
      Dict Json
      → Text
      → Json
      → Dict Json
      → Dict Json
      → Result Raised (List Json)
      → Result Raised Json
  flagged held source deadline evidence policy (err e) = err e
  flagged held source deadline evidence policy (ok flags) =
      ok (item_of held source deadline evidence policy flags)

  abbrev pub sliced : Result Raised Json → Result Raised (List Json)
  sliced (err e) = err e
  sliced (ok flags) = slice_of 10 (or_list flags)

  -- `_hold_item`; `iso_ms` is the time in milliseconds as a text, `None` for what is no time.
  unfoldable pub hold_item : Dict Json → Text → Json → Json → Result Raised Json
  hold_item held source deadline evidence =
      let policy = dict_of (get (dict_of evidence) (codes "policy")) in
      flagged held source deadline (dict_of evidence) policy (sliced (flags_of held policy))

  abbrev pub is_pending : Dict Json → Bool
  is_pending d = elim (get d (codes "status")) [ str s ↦ text_eq s (codes "pending") | _ ↦ false ]

  abbrev pub join : Result Raised Json → Result Raised (List Json) → Result Raised (List Json)
  join (err e) rest = err e
  join (ok item) (err e) = err e
  join (ok item) (ok items) = ok (item ∷ items)

  -- The items of the bridge, and of a gate.
  unfoldable pub bridge_items : List Json → Result Raised (List Json)
  bridge_items [] = ok []
  bridge_items (v ∷ vs) =
      let rest = bridge_items vs in
      elim (as_dict v) [
        | none ↦ rest
        | some held ↦
            join (hold_item held (codes "bridge") (get held (codes "deadline_ms")) null) rest
      ]

  unfoldable pub gate_items : Text → List Json → Result Raised (List Json)
  gate_items name [] = ok []
  gate_items name (v ∷ vs) =
      let rest = gate_items name vs in
      elim (as_dict v) [
        | none ↦ rest
        | some held ↦
            if is_pending held
            then join
                (hold_item held (codes "mcp:" ++ name) (get held (codes "deadline_unix_ms"))
                  (get held (codes "evidence")))
                rest
            else rest
      ]

  -- What a surface adds: that it is stale, and the items behind those before it.
  abbrev pub Found : Type 0
  Found = Bool × List Json

  abbrev pub add_items : Found → Result Raised (List Json) → Result Raised Found
  add_items (stale, items) (err e) = err e
  add_items (stale, items) (ok more) = ok (stale, items ++ more)

  abbrev pub bridge_listed : Result Raised (List Json) → Result Raised Found
  bridge_listed (err e) = err e
  bridge_listed (ok vs) = add_items (false, []) (bridge_items vs)

  abbrev pub bridge_found : Option ℕ × Json → Result Raised Found
  bridge_found (none, parsed) = ok (true, [])
  bridge_found (some status, parsed) = elim (as_dict parsed) [
    | none ↦ ok (true, [])
    | some d ↦
        if status == 200
        then bridge_listed (slice_of 100 (or_list (get d (codes "items"))))
        else ok (true, [])
  ]

  abbrev pub gate_listed : Text → Found → Option (List Json) → Result Raised Found
  gate_listed name (stale, items) none = ok (true, items)
  gate_listed name found (some actions) = add_items found (gate_items name (take 100 actions))

  abbrev pub gate_found : Text → Found → Result Raised Json → Result Raised Found
  gate_found name found (err e) = err e
  gate_found name found (ok actions) = gate_listed name found (as_list actions)

  module _ (cfg : Config) (w : World) where
    abbrev pub bridge_reply : Trace → (Option ℕ × Json) × Trace
    bridge_reply =
        internal_json cfg w (codes "ephor") (codes "POST") (codes "/oversight/list")
          (some (
            object ((codes "status", str (codes "pending")) ∷ (codes "limit", int (pos 100)) ∷ [])))
          none []

    unfoldable pub ask_bridge : Exec Trace Found
    ask_bridge t = let (reply, u) = bridge_reply t in (bridge_found reply, u)

    abbrev pub ask_gate : Text → Found → Exec Trace Found
    ask_gate name found t =
        let (reply, u) = gate_rpc cfg w name (codes "oversight.list") [] t in
        (gate_found name found (result_field reply (codes "actions")), u)

    unfoldable pub ask_gates : List Text → Found → Exec Trace Found
    ask_gates [] found = pure found
    ask_gates (name ∷ names) found = ask_gate name found >>= ask_gates names

    abbrev pub envelope : Text → Text → Bool → Bool → List Json → Json
    envelope now ephor enabled stale items = object (
        (codes "schema", str (codes "rebekah.oversight.v1"))
        ∷ (codes "observed_at", str now)
        ∷ (codes "source", str (codes "rebekah-gateway"))
        ∷ (codes "origin", str (codes "ephor"))
        ∷ (codes "enabled", boolean enabled)
        ∷ (codes "ephor", str ephor)
        ∷ (codes "count", int (pos (length items)))
        ∷ (codes "stale", boolean stale)
        ∷ (
          codes "decisions",
          object (
              (codes "oversight", boolean (not (is_empty cfg.ephor_oversight_token)))
              ∷ (codes "review", boolean (not (is_empty cfg.weftmark_write_token)))
              ∷ []),
        )
        ∷ (codes "items", array items)
        ∷ [])

    abbrev pub gate_names : List Text
    gate_names = sorted (map (λ g. g.0) cfg.mcp_gates)

    abbrev pub first_items : Found → Exec Trace Found
    first_items (stale, items) = pure (stale, take 100 items)

    -- The holds of every surface, at most 100.
    unfoldable pub holds : Exec Trace Found
    holds = (ask_bridge >>= ask_gates gate_names) >>= first_items

    -- `v1_oversight`; `ephor` is `cfg.ephor_state`.
    unfoldable pub oversight : Text → Text → Exec Trace Json
    oversight now ephor =
        if text_eq ephor (codes "enabled")
        then (holds >>= λ found. pure (envelope now ephor true found.0 found.1))
        else pure (envelope now ephor false false [])
