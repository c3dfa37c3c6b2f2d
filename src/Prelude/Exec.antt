-- ===== src/Prelude/Exec.antt =====
-- Code that changes a state and may raise: what was written before a raise stays written.
use mathlib.Core.Option.{Option, none, some}

pub data Result {ℓ κ} (E : Type ℓ) (A : Type κ) : Type (ℓ ⊔ κ) where
  ok : A → Result E A
  err : E → Result E A

-- Python's exceptions that the code can meet.
pub data Raised : Type 0 where
  attribute_error type_error value_error runtime_error : Raised

abbrev pub Exec : Type 0 → Type 0 → Type 0
Exec S A = S → Result Raised A × S

module _ {S A : Type 0} where
  abbrev pub pure : A → Exec S A
  pure a s = (ok a, s)

  abbrev pub raise : Raised → Exec S A
  raise e s = (err e, s)

  abbrev pub lift : Result Raised A → Exec S A
  lift r s = (r, s)

module _ {S A B : Type 0} where
  abbrev pub continue : Result Raised A → (A → Exec S B) → Exec S B
  continue (ok a) f s = f a s
  continue (err e) f s = (err e, s)

  infixl 5 ◌>>=◌ ◌>>◌
  abbrev pub ◌>>=◌ : Exec S A → (A → Exec S B) → Exec S B
  ◌>>=◌ run next before = let (value, after) = run before in continue value next after

  abbrev pub ◌>>◌ : Exec S A → Exec S B → Exec S B
  first >> second = first >>= λ value. second

-- `try: m` with a handler for every exception: what `m` wrote stays written.
abbrev pub attempt : {S A : Type 0} → Exec S A → S → Option A × S
attempt m s = let (r, s') = m s in (elim r [ ok a ↦ some a | err e ↦ none ], s')
