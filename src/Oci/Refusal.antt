-- ===== src/Oci/Refusal.antt =====
-- What the OCI tools of tools/ raise, and chains of steps that may raise.
use rebekah.Prelude.{Bool, true, false, not, Option, none, some, ◌≡◌, refl, List, [], ◌∷◌}
use mathlib.Core.Path.{subst}
use rebekah.Prelude.Text.{Text}
use rebekah.Prelude.Exec.{Result, ok, err}

-- `refused` is a ValueError with its message, the others are an OSError, a KeyError, an
-- AttributeError and a TypeError.
pub data Refusal : Type 0 where
  refused : Text → Refusal
  io_error missing_key no_attribute wrong_type : Refusal
  endless : Refusal

abbrev pub Checked : Type 0 → Type 0
Checked A = Result Refusal A

infixl 5 ◌>>=◌ ◌>>◌
abbrev pub ◌>>=◌ : {A B : Type 0} → Checked A → (A → Checked B) → Checked B
ok value >>= next = next value
err e >>= next = err e

abbrev pub ◌>>◌ : {A B : Type 0} → Checked A → Checked B → Checked B
first >> second = first >>= λ _. second

-- `if not test: raise ValueError(message)`
abbrev pub ensure : Bool → Text → Checked (Unit {0})
ensure true message = ok tt
ensure false message = err (refused message)

-- The value that a test yields, or a ValueError.
abbrev pub require : {A : Type 0} → Option A → Text → Checked A
require none message = err (refused message)
require (some a) message = ok a

-- Every step of a loop, in order, up to the first that raises.
unfoldable pub each : {A B : Type 0} → (A → Checked B) → List A → Checked (List B)
each f [] = ok []
each f (x ∷ xs) = let rest = each f xs in f x >>= λ y. rest >>= λ ys. ok (y ∷ ys)

-- A chain that succeeds has both of its parts succeed.
pub bind_ok :
    {A B : Type 0} (first : Checked A) (next : A → Checked B) {last : B}
    → (first >>= next) ≡ ok last
    → (value : A) × (first ≡ ok value) × (next value ≡ ok last)
bind_ok (ok value) next h = (value, refl, h)
bind_ok (err e) next h = cc

pub ensure_ok :
    (test : Bool) (message : Text) {u : Unit {0}} → ensure test message ≡ ok u → test ≡ true
ensure_ok true message h = refl
ensure_ok false message h = cc

pub ensure-not :
    (test : Bool) (message : Text) {u : Unit {0}} → ensure (not test) message ≡ ok u → test ≡ false
ensure-not true message h = cc
ensure-not false message h = refl

pub require_ok :
    {A : Type 0} (o : Option A) (message : Text) {a : A} → require o message ≡ ok a → o ≡ some a
require_ok none message h = cc
require_ok (some a) message h = cc

-- A chain whose value, where it yields one, has a property.
pub data Yields {A : Type 0} (P : A → Type 0) : Checked A → Type 0 where
  yields : (a : A) → P a → Yields P (ok a)
  fails : (x : Refusal) → Yields P (err x)

pub then-Yields :
    {A B : Type 0} {P : B → Type 0} (first : Checked A) {next : A → Checked B}
    → ((value : A) → Yields P (next value))
    → Yields P (first >>= next)
then-Yields (ok value) h = h value
then-Yields (err x) h = fails x

pub Yields-ok :
    {A : Type 0} {P : A → Type 0} {r : Checked A} → Yields P r → {a : A} → r ≡ ok a → P a
Yields-ok {P} (yields b p) e = subst P (cc e) p
Yields-ok (fails x) e = absurd (cc e)
