-- ===== src/Decisions/Check.antt =====
-- What `apply_command` of nix/gateway.py checks of a command before it asks any service, and the
-- body that it then sends: pure functions of the command.
use rebekah.Prelude.{
  ℕ, String, ◌*◌, Bool, true, false, not, ◌&&◌, Option, none, some, [], ◌∷◌, ◌++◌, leb, take,
  if◌then◌else◌,
}
use rebekah.Prelude.Int.{ℤ, pos, int_ltb}
use rebekah.Prelude.Text.{Text, codes, text_eq, is_empty, strip}
use rebekah.Prelude.Dict.{Dict}
use rebekah.Prelude.Exec.{Result, ok, err}
use rebekah.Json.{Json, boolean, int, str, as_dict, get}
use rebekah.Regex.{is_command_id, is_request_id, is_change_set, is_queue, is_actor, has_dots}

-- `COMMAND_KINDS`
pub data Kind : Type 0 where
  decide defer escalate record_review : Kind

-- `command.get("kind")` where it is one of `COMMAND_KINDS`.
unfoldable pub kind_of : Json → Option Kind
unfolding text_eq
kind_of (str s) =
    if text_eq s (codes "oversight.decide")
    then some decide
    else if text_eq s (codes "oversight.defer")
    then some defer
    else if text_eq s (codes "oversight.escalate")
    then some escalate
    else if text_eq s (codes "review.record")
    then some record_review
    else none
kind_of _ = none

abbrev pub kind_name : Kind → Text
kind_name decide = codes "oversight.decide"
kind_name defer = codes "oversight.defer"
kind_name escalate = codes "oversight.escalate"
kind_name record_review = codes "review.record"

-- `isinstance(v, str) and RE.match(v)`, with the text.
abbrev pub text_where : (Text → Bool) → Json → Option Text
text_where p (str s) = if p s then some s else none
text_where p _ = none

-- The id of a command that can be reported back.
unfoldable pub command_id : Json → Option Text
command_id command = elim (as_dict command) [
  | none ↦ none
  | some d ↦ text_where is_command_id (get d (codes "id"))
]

-- `_reason`: a text that is not blank, stripped and cut.
unfoldable pub reason : Json → Option Text
reason (str s) = if is_empty (strip s) then none else some (take 2000 (strip s))
reason _ = none

abbrev pub params_of : Dict Json → Dict Json
params_of command = elim (as_dict (get command (codes "params"))) [ none ↦ [] | some d ↦ d ]

abbrev ensure : {A : Type 0} → Option A → String → Result Text A
ensure none error = err (codes error)
ensure (some a) error = ok a

infixl 5 ◌>>=◌ ◌>>◌
abbrev pub ◌>>=◌ : {A B : Type 0} → Result Text A → (A → Result Text B) → Result Text B
ok a >>= f = f a
err e >>= f = err e

abbrev require : Bool → String → Result Text (Unit {0})
require true error = ok tt
require false error = err (codes error)

abbrev ◌>>◌ : {B : Type 0} → Result Text (Unit {0}) → Result Text B → Result Text B
m >> k = m >>= λ _. k

-- The kind and the actor of an addressed command, or the error that is reported.
unfoldable pub check_header : Dict Json → Result Text (Kind × Text)
check_header command = do
  kind ← ensure (kind_of (get command (codes "kind"))) "unknown_kind"
  actor ← ensure (text_where is_actor (get command (codes "requested_by"))) "bad_actor"
  ok (kind, actor)

-- The change set of a review, where reviews are enabled by a write token.
unfoldable pub check_review : Text → Dict Json → Result Text Text
check_review write_token params = do
  cs ←
      ensure
        (text_where (λ s. is_change_set s && not (has_dots s)) (get params (codes "change_set_id")))
        "bad_change_set"
  require (not (is_empty write_token)) "review_not_enabled"
  ok cs

-- The request id and the rationale of a decision on a hold.
unfoldable pub check_request : Text → Dict Json → Result Text (Text × Text)
check_request oversight_token params = do
  request_id ← ensure (text_where is_request_id (get params (codes "request_id"))) "bad_request_id"
  require (not (is_empty oversight_token)) "oversight_not_enabled"
  rationale ← ensure (reason (get params (codes "rationale"))) "rationale_required"
  ok (request_id, rationale)

-- `isinstance(v, int)`, which a bool passes too.
abbrev pub int_like : Json → Option ℤ
int_like (int n) = some n
int_like (boolean true) = some (pos 1)
int_like (boolean false) = some (pos 0)
int_like _ = none

-- `isinstance(deadline, int) and now_ms > deadline`
abbrev pub is_past : ℕ → Json → Bool
is_past now_ms deadline = elim (int_like deadline) [
  | none ↦ false
  | some d ↦ int_ltb d (pos now_ms)
]

-- The two decisions that a reviewer has.
pub data Verdict : Type 0 where
  approved denied : Verdict

unfoldable pub verdict_of : Json → Option Verdict
unfolding text_eq
verdict_of (str s) =
    if text_eq s (codes "approved")
    then some approved
    else if text_eq s (codes "denied")
    then some denied
    else none
verdict_of _ = none

abbrev pub verdict_name : Verdict → Text
verdict_name approved = codes "approved"
verdict_name denied = codes "denied"

abbrev pub is_approval : Verdict → Bool
is_approval approved = true
is_approval denied = false

-- A number of minutes from 1 to 1440.
abbrev pub minutes_of : Json → Option ℕ
minutes_of (int (pos n)) = if leb 1 n && leb n 1440 then some n else none
minutes_of _ = none

-- The verb of the call, as in `/oversight/decide`, and its body.
pub record Order : Type 0 where
  pub verb : Text
  pub verdict : Option Verdict
  pub target_queue : Text
  pub defer_ms : ℕ
  pub body : Dict Json

module _ (cid actor request_id rationale : Text) (params : Dict Json) where
  abbrev noted : String → Json
  noted how = str (rationale ++ (codes how ++ (actor ++ codes ")")))

  unfoldable pub check_decide : ℕ → Json → Result Text Order
  check_decide now_ms deadline = do
    verdict ← ensure (verdict_of (get params (codes "decision"))) "bad_decision"
    require (not (is_approval verdict && is_past now_ms deadline)) "deadline_passed"
    ok (record {
      verb = codes "decide";
      verdict = some verdict;
      target_queue = [];
      defer_ms = 0;
      body =
          (codes "request_id", str request_id)
          ∷ (codes "decision", str (verdict_name verdict))
          ∷ (codes "reviewer", str actor)
          ∷ (codes "rationale", str rationale)
          ∷ (codes "external_ref", str cid)
          ∷ [];
    })

  unfoldable pub check_defer : Result Text Order
  check_defer = do
    minutes ← ensure (minutes_of (get params (codes "defer_minutes"))) "bad_defer_minutes"
    ok (record {
      verb = codes "defer";
      verdict = none;
      target_queue = [];
      defer_ms = minutes * 60000;
      body =
          (codes "request_id", str request_id)
          ∷ (codes "defer_ms", int (pos (minutes * 60000)))
          ∷ (codes "rationale", noted " (deferred by ")
          ∷ (codes "external_ref", str cid)
          ∷ [];
    })

  unfoldable pub check_escalate : Result Text Order
  check_escalate = do
    queue ← ensure (text_where is_queue (get params (codes "target_queue"))) "bad_target_queue"
    ok (record {
      verb = codes "escalate";
      verdict = none;
      target_queue = queue;
      defer_ms = 0;
      body =
          (codes "request_id", str request_id)
          ∷ (codes "target_queue", str queue)
          ∷ (codes "rationale", noted " (escalated by ")
          ∷ (codes "external_ref", str cid)
          ∷ [];
    })
