-- ===== src/Views/Stamps.antt =====
-- The checks of times and texts that the views of nix/gateway.py share: `_agenda_text`,
-- `_agenda_time` and `_agenda_count`. None stands for a raise that the views catch.
use rebekah.Prelude.{
  ℕ, ◌≤◌, ◌≡◌, refl, Bool, true, false, Option, none, some, List, [], ◌∷◌, if◌then◌else◌, leb,
  length, take, arith, All,
}
use mathlib.Core.Path.{subst}
use rebekah.Prelude.Int.{ℤ, pos}
use rebekah.Prelude.Text.{Text}
use rebekah.Json.{Json, null, boolean, int, float, str, arr, obj}

-- `datetime.fromisoformat(v.replace("Z", "+00:00"))` in microseconds since the epoch: none for a text
-- that is no time, or for one without a zone.
abbrev pub Stamp : Type 0
Stamp = Text → Option ℤ

infixl 5 ◌>>=◌
abbrev pub ◌>>=◌ : {A B : Type 0} → Option A → (A → Option B) → Option B
none >>= next = none
some a >>= next = next a

-- `if not test: raise ValueError`
abbrev pub check : Bool → Option (Unit {0})
check true = some tt
check false = none

-- Every step of a loop.
unfoldable pub every : {A B : Type 0} → (A → Option B) → List A → Option (List B)
every f [] = some []
every f (x ∷ xs) = let rest = every f xs in f x >>= λ y. rest >>= λ ys. some (y ∷ ys)

-- `_agenda_text(value, maximum)`
unfoldable pub agenda_text : ℕ → Json → Option Text
agenda_text maximum null = some []
agenda_text maximum (str s) = some (take maximum s)
agenda_text maximum _ = none

-- `_agenda_time(value)`
unfoldable pub agenda_time : Stamp → Json → Option ℤ
agenda_time stamp (str s) = if leb (length s) 40 then stamp s else none
agenda_time stamp _ = none

-- `_agenda_count(value)`
unfoldable pub agenda_count : Json → Option ℕ
agenda_count (int (pos n)) = if leb n 100000 then some n else none
agenda_count _ = none

-- A text of at most so many characters: `isinstance(v, str) and len(v) <= limit`.
abbrev pub short_text : ℕ → Json → Option Text
short_text limit (str s) = if leb (length s) limit then some s else none
short_text limit _ = none

-- A chain that yields a value has both of its parts yield one.
pub bind_some :
    {A B : Type 0} (first : Option A) (next : A → Option B) {last : B}
    → (first >>= next) ≡ some last
    → (a : A) × (first ≡ some a) × (next a ≡ some last)
bind_some (some a) next e = (a, refl, e)
bind_some none next e = cc

pub check-some : (test : Bool) {u : Unit {0}} → check test ≡ some u → test ≡ true
check-some true e = refl
check-some false e = cc

pub short_text_le :
    (limit : ℕ) (v : Json) (s : Text) → short_text limit v ≡ some s → length s ≤ limit
short_text_le limit (str t) s e = ground arith
short_text_le limit null s e = absurd (cc e)
short_text_le limit (boolean b) s e = absurd (cc e)
short_text_le limit (int n) s e = absurd (cc e)
short_text_le limit (float t) s e = absurd (cc e)
short_text_le limit (arr vs) s e = absurd (cc e)
short_text_le limit (obj fs) s e = absurd (cc e)

-- A chain whose value, where it yields one, has a property.
pub data Yields {A : Type 0} (P : A → Type 0) : Option A → Type 0 where
  yields : (a : A) → P a → Yields P (some a)
  refuses : Yields P none

pub bind-Yields :
    {A B : Type 0} {P : B → Type 0} (first : Option A) {next : A → Option B}
    → ((a : A) → first ≡ some a → Yields P (next a))
    → Yields P (first >>= next)
bind-Yields (some a) h = h a refl
bind-Yields none h = refuses

pub Yields-some :
    {A : Type 0} {P : A → Type 0} {o : Option A} → Yields P o → {a : A} → o ≡ some a → P a
Yields-some {P} (yields b p) e = subst P (cc e) p
Yields-some refuses e = absurd (cc e)

pub every-All :
    {A B : Type 0} (P : B → Type 0) (f : A → Option B)
    → ((x : A) → Yields P (f x))
    → (xs : List A) → Yields (λ ys. All P ys × (length ys ≡ length xs)) (every f xs)
unfolding every
every-All P f h [] = yields [] (tt, refl)
every-All P f h (x ∷ xs) = bind-Yields (f x) λ y e. bind-Yields (every f xs) λ ys e'.
    let (rest, long) = Yields-some (every-All P f h xs) e' in
    yields (y ∷ ys) ((Yields-some (h x) e, rest), omega (arith, long))
