-- ===== src/Decisions/Reports.antt =====
-- The reports of `apply_command` in nix/gateway.py: what each service's reply means to Dash, and the
-- exceptions that a reply of another shape raises.
use rebekah.Prelude.{
  ℕ, String, Bool, true, false, ◌||◌, Option, none, some, ◌++◌, ◌==◌, if◌then◌else◌,
}
use rebekah.Prelude.Int.{negsuc}
use rebekah.Prelude.Text.{Text, codes, text_eq, is_empty, decimal}
use rebekah.Prelude.Dict.{Dict}
use rebekah.Prelude.Exec.{Result, ok, err, Raised}
use rebekah.Json.{Json, null, int, float, as_dict, get, get_of, or_dict}
use rebekah.Json.Dumps.{text_of}
use rebekah.Regex.{is_request_id, is_chain_hash}
use rebekah.Decisions.Check.{Verdict, text_where}

-- The report to Dash. `outcome` and `chain` are keys that may be absent; `_text` may put `None` under
-- the first.
pub record Report : Type 0 where
  pub id : Text
  pub ok : Bool
  pub outcome : Option (Option Text)
  pub error : Option Text
  pub chain : Option (Text × Text)

abbrev pub refusal : Text → Text → Report
refusal cid error = record {
  id = cid;
  ok = false;
  outcome = none;
  error = some error;
  chain = none;
}

abbrev pub applied : Text → Option Text → Option (Text × Text) → Report
applied cid outcome chain = record {
  id = cid;
  ok = true;
  outcome = some outcome;
  error = none;
  chain = chain;
}

-- `_chain_link`
unfoldable pub chain_link : Json → Option (Text × Text)
chain_link action = elim (as_dict action) [
  | none ↦ none
  | some a ↦ elim (as_dict (get a (codes "decision_evidence"))) [
    | none ↦ none
    | some evidence ↦ elim (text_where is_request_id (get evidence (codes "entry_id"))) [
      | none ↦ none
      | some entry ↦ elim (text_where is_chain_hash (get evidence (codes "hash"))) [
        | none ↦ none
        | some hash ↦ some (entry, hash)
      ]
    ]
  ]
]

-- `_text(...) or other`
abbrev pub text_or : Option Text → Text → Text
text_or none other = other
text_or (some s) other = if is_empty s then other else s

abbrev pub flat {ℓ} : {A : Type ℓ} → Option (Option A) → Option A
flat none = none
flat (some o) = o

-- The error text of a service's reply, or one that says how the call failed.
unfoldable pub service_error : String → Option ℕ → Json → ℕ → Result Raised Text
service_error service status reply limit = elim (get_of (or_dict reply) (codes "error")) [
  | err e ↦ err e
  | ok error ↦ ok (
      text_or (text_of error limit) (elim status [
        | none ↦ codes service ++ codes "_unreachable"
        | some n ↦ codes service ++ (codes "_http_" ++ decimal n)
      ]))
]

abbrev is_status : ℕ → Option ℕ → Bool
is_status n none = false
is_status n (some m) = m == n

-- The dict of a reply with status 200.
abbrev pub success : Option ℕ → Json → Option (Dict Json)
success status reply = if is_status 200 status then as_dict reply else none

infixl 5 ◌>>=ᵣ◌
abbrev ◌>>=ᵣ◌ {ℓ κ} :
    {A : Type ℓ} {B : Type κ} → Result Raised A → (A → Result Raised B) → Result Raised B
ok a >>=ᵣ f = f a
err e >>=ᵣ f = err e

-- The report on a review, from WeftMark's reply.
unfoldable pub review_report : Text → Option ℕ → Json → Result Raised Report
review_report cid status reply = elim (success status reply) [
  | none ↦ service_error "weftmark" status reply 80 >>=ᵣ λ error. ok (refusal cid error)
  | some d ↦ get_of (or_dict (get d (codes "control"))) (codes "result") >>=ᵣ λ result.
      get_of (or_dict result) (codes "decision") >>=ᵣ λ decision.
      get_of (or_dict decision) (codes "outcome") >>=ᵣ λ outcome.
      ok (applied cid (text_of outcome 40) none)
]

abbrev chain_of : Option Verdict → Json → Option (Text × Text)
chain_of none action = none
chain_of (some verdict) action = chain_link action

-- The report on a decision, from the reply of Ephor's bridge.
unfoldable pub bridge_report : Text → Option Verdict → Option ℕ → Json → Result Raised Report
bridge_report cid verdict status reply = elim (success status reply) [
  | some d ↦
      let action = get d (codes "action") in
      get_of (or_dict action) (codes "status") >>=ᵣ λ outcome.
      ok (applied cid (text_of outcome 40) (chain_of verdict action))
  | none ↦
      let other = service_error "ephor" status reply 120 >>=ᵣ λ error. ok (refusal cid error) in
      if is_status 401 status || is_status 403 status
      then ok (refusal cid (codes "ephor_refused_credential"))
      else other
]

-- `== -32010`, of an integer or of a float that equals it.
abbrev is_credential_code : Json → Bool
is_credential_code (int (negsuc n)) = n == 32009
is_credential_code (float t) = text_eq t (codes "-32010.0")
is_credential_code _ = false

-- `((reply or {}).get("result") or {}).get(key)`
unfoldable pub result_field : Option (Dict Json) → Text → Result Raised Json
result_field none key = ok null
result_field (some reply) key = get_of (or_dict (get reply (codes "result"))) key

-- The report on a decision, from the reply of an MCP gate.
unfoldable pub gate_report : Text → Option Verdict → Option (Dict Json) → Result Raised Report
gate_report cid verdict reply = result_field reply (codes "action") >>=ᵣ λ action.
    elim (as_dict action) [
      | some a ↦ ok (applied cid (text_of (get a (codes "status")) 40) (chain_of verdict action))
      | none ↦ elim reply [
        | none ↦ ok (refusal cid (codes "ephor_unreachable"))
        | some r ↦ get_of (or_dict (get r (codes "error"))) (codes "code") >>=ᵣ λ code. ok (
            refusal cid (
              if is_credential_code code
              then codes "ephor_refused_credential"
              else codes "gate_refused"))
      ]
    ]
