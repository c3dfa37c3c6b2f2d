-- ===== src/Dash/Commands.antt =====
-- `take_commands` and `report` of nix/gateway.py's `DashPusher`: the decisions that Dash sends, and the
-- results that it has not acknowledged.
use rebekah.Prelude.{
  ℕ, Bool, true, false, ◌||◌, Option, none, some, List, [], ◌∷◌, map, length, take, if◌then◌else◌,
  ltb, ◌==◌,
}
use rebekah.Prelude.Text.{Text, codes}
use rebekah.Prelude.Dict.{Dict, lookup, insert, erase, has_key}
use rebekah.Prelude.Exec.{Result, ok, err, Raised, type_error, Exec}
use rebekah.Json.{
  Json, null, boolean, int, float, str, arr, obj, object, array, as_dict, as_list, get,
}
use rebekah.Decisions.Calls.{Trace, World, Config}
use rebekah.Decisions.Reports.{Report}
use rebekah.Decisions.Apply.{apply_command}
use rebekah.Dash.Pusher.{Settings, Pusher, report_json}
use rebekah.Dash.Calls.{Network, Answer, call}

abbrev pub max_commands : ℕ
max_commands = 20

abbrev pub max_remembered : ℕ
max_remembered = 500

-- `(data or {}).get(key)`
abbrev pub answer_field : Option (Dict Json) → Text → Json
answer_field none key = null
answer_field (some d) key = get d key

-- `command.get("id") if isinstance(command, dict) else None`
abbrev pub id_of : Json → Json
id_of command = elim (as_dict command) [ none ↦ null | some d ↦ get d (codes "id") ]

-- The key of a dict that a value is, where it is hashable; a key of the two dicts is a text.
abbrev pub key_of : Json → Result Raised (Option Text)
key_of (str s) = ok (some s)
key_of (arr vs) = err type_error
key_of (obj fs) = err type_error
key_of null = ok none
key_of (boolean b) = ok none
key_of (int n) = ok none
key_of (float t) = ok none

-- `d.setdefault(k, v)`
unfoldable pub set_default : {V : Type 0} → Text → V → Dict V → Dict V
set_default k v d = if has_key k d then d else insert k v d

-- `while len(d) > MAX_REMEMBERED: d.pop(next(iter(d)))`
unfoldable pub evict : {V : Type 0} → Dict V → Dict V
evict [] = []
evict (e ∷ d) = let rest = evict d in if ltb max_remembered (length (e ∷ d)) then rest else e ∷ d

module _ (ccfg : Config) (w : World) (wall : Trace → ℕ) where
  abbrev pub keep_result :
      Option Text → Result Raised (Option Report) → Pusher → Result Raised Bool × Pusher
  keep_result cid (err e) p = (err e, p)
  keep_result none (ok report) p = (ok false, p)
  keep_result (some cid) (ok none) p = (ok false, p)
  keep_result (some cid) (ok (some report)) p = (
    ok true,
    record p { applied = insert cid report p.applied; unreported = insert cid report p.unreported },
  )

  -- `wall` is the time in milliseconds when the decisions have come so far.
  unfoldable pub apply_new : Option Text → Json → Exec Pusher Bool
  apply_new cid command p =
      let (result, t) = apply_command ccfg w command (wall p.trace) p.trace in
      keep_result cid result (record p { trace = t })

  abbrev pub repeat_or_apply : Option Text → Json → Option Report → Exec Pusher Bool
  repeat_or_apply (some cid) command (some report) p =
      (ok false, record p { unreported = set_default cid report p.unreported })
  repeat_or_apply none command (some report) p = (ok false, p)
  repeat_or_apply cid command none p = apply_new cid command p

  abbrev pub remembered : Option Text → Pusher → Option Report
  remembered none p = none
  remembered (some cid) p = lookup cid p.applied

  abbrev pub take_keyed : Result Raised (Option Text) → Json → Exec Pusher Bool
  take_keyed (err e) command p = (err e, p)
  take_keyed (ok cid) command p = repeat_or_apply cid command (remembered cid p) p

  -- One command: a remembered one is only reported again.
  unfoldable pub take_command : Json → Exec Pusher Bool
  take_command command = take_keyed (key_of (id_of command)) command

  -- The rest of the commands, where any has run before.
  abbrev pub take_rest : (Bool → Exec Pusher Bool) → Bool → Result Raised Bool → Exec Pusher Bool
  take_rest rest ran (err e) p = (err e, p)
  take_rest rest ran (ok b) p = rest (ran || b) p

  unfoldable pub take_each : List Json → Bool → Exec Pusher Bool
  take_each [] ran p = (ok ran, p)
  take_each (command ∷ commands) ran p =
      let (b, q) = take_command command p in take_rest (take_each commands) ran b q

  abbrev pub evicted : Result Raised Bool → Pusher → Result Raised Bool × Pusher
  evicted (err e) p = (err e, p)
  evicted (ok ran) p = (ok ran, record p { applied = evict p.applied })

  abbrev pub take_listed : Option (List Json) → Exec Pusher Bool
  take_listed none p = (ok false, p)
  take_listed (some commands) p =
      let (ran, q) = take_each (take max_commands commands) false p in evicted ran q

  -- `take_commands`
  unfoldable pub take_commands : Option (Dict Json) → Exec Pusher Bool
  take_commands answered = take_listed (as_list (answer_field answered (codes "commands")))

-- `for cid in acked: self.unreported.pop(cid, None)`
abbrev pub drop_key : Option Text → Dict Report → Dict Report
drop_key none d = d
drop_key (some cid) d = erase cid d

abbrev pub drop_next :
    (Dict Report → Result Raised (Unit {0}) × Dict Report)
    → Result Raised (Option Text)
    → Dict Report
    → Result Raised (Unit {0}) × Dict Report
drop_next rest (err e) d = (err e, d)
drop_next rest (ok cid) d = rest (drop_key cid d)

unfoldable pub drop_acknowledged : List Json → Dict Report → Result Raised (Unit {0}) × Dict Report
drop_acknowledged [] d = (ok tt, d)
drop_acknowledged (v ∷ acked) d = drop_next (drop_acknowledged acked) (key_of v) d

abbrev pub acknowledge : Option (List Json) → Dict Report → Result Raised (Unit {0}) × Dict Report
acknowledge none d = (ok tt, [])
acknowledge (some acked) d = drop_acknowledged acked d

abbrev pub settle : Option Answer → Exec Pusher (Unit {0})
settle none p = (ok tt, p)
settle (some a) p =
    if a.status == 200
    then (let (r, d) =
          acknowledge (as_list (answer_field a.parsed (codes "acknowledged"))) p.unreported in
        (r, record p { unreported = d }))
    else (ok tt, p)

abbrev pub send_results : Settings → Network → Dict Report → Exec Pusher (Unit {0})
send_results cfg n [] p = (ok tt, p)
send_results cfg n (e ∷ d) p =
    settle
      (call cfg n (codes "POST") (codes "/api/connector/results")
        (some (object ((codes "results", array (map (λ x. report_json x.1) (e ∷ d))) ∷ []))))
      p

-- `report`
unfoldable pub report : Settings → Network → Exec Pusher (Unit {0})
report cfg n p = send_results cfg n p.unreported p
