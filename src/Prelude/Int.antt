-- ===== src/Prelude/Int.antt =====
-- Python's integers: `negsuc n` is -(n + 1).
use Prim.Native.Nat.{ℕ, suc, ◌+◌, ◌-◌, ◌≤◌, ◌<◌}
use mathlib.Core.Path.{◌≡◌, ap}
use mathlib.Core.Bool.{Bool, true}
use native.Mathlib.Omega.{arith}
use rebekah.Prelude.Bools.{ltb, leb, ◌==◌, if◌then◌else◌}

pub data ℤ : Type 0 where
  pos : ℕ → ℤ
  negsuc : ℕ → ℤ

abbrev pub pos_part : ℤ → ℕ
pos_part (pos n) = n
pos_part (negsuc n) = 0

abbrev pub neg_part : ℤ → ℕ
neg_part (pos n) = 0
neg_part (negsuc n) = suc n

-- a - b, as an integer.
abbrev pub sub_ℕ : ℕ → ℕ → ℤ
sub_ℕ a b = if leb b a then pos (a - b) else negsuc (b - a - 1)

infixl 65 ◌+ℤ◌ ◌-ℤ◌
unfoldable pub ◌+ℤ◌ : ℤ → ℤ → ℤ
a +ℤ b = sub_ℕ (pos_part a + pos_part b) (neg_part a + neg_part b)

unfoldable pub ◌-ℤ◌ : ℤ → ℤ → ℤ
a -ℤ b = sub_ℕ (pos_part a + neg_part b) (neg_part a + pos_part b)

infix 50 ◌≤ℤ◌ ◌<ℤ◌
abbrev pub ◌≤ℤ◌ : ℤ → ℤ → Type 0
a ≤ℤ b = pos_part a + neg_part b ≤ pos_part b + neg_part a

abbrev pub ◌<ℤ◌ : ℤ → ℤ → Type 0
a <ℤ b = pos_part a + neg_part b < pos_part b + neg_part a

abbrev pub int_ltb : ℤ → ℤ → Bool
int_ltb a b = ltb (pos_part a + neg_part b) (pos_part b + neg_part a)

abbrev pub int_leb : ℤ → ℤ → Bool
int_leb a b = leb (pos_part a + neg_part b) (pos_part b + neg_part a)

pub +ℤ_parts :
    (a b : ℤ)
    → pos_part (a +ℤ b) + neg_part a + neg_part b ≡ neg_part (a +ℤ b) + pos_part a + pos_part b
unfolding ◌+ℤ◌
+ℤ_parts a b = ground arith

pub -ℤ_parts :
    (a b : ℤ)
    → pos_part (a -ℤ b) + neg_part a + pos_part b ≡ neg_part (a -ℤ b) + pos_part a + neg_part b
unfolding ◌-ℤ◌
-ℤ_parts a b = ground arith

-- `min` and `max` of two integers.
abbrev pub int_min : ℤ → ℤ → ℤ
int_min a b = if int_ltb b a then b else a

abbrev pub int_max : ℤ → ℤ → ℤ
int_max a b = if int_ltb a b then b else a

-- `a == b`
abbrev pub int_eq : ℤ → ℤ → Bool
int_eq a b = pos_part a + neg_part b == pos_part b + neg_part a

pub int_eq_sound : (a b : ℤ) → int_eq a b ≡ true → a ≡ b
int_eq_sound (pos m) (pos n) h = ap pos (ground arith)
int_eq_sound (pos m) (negsuc n) h = ground arith
int_eq_sound (negsuc m) (pos n) h = ground arith
int_eq_sound (negsuc m) (negsuc n) h = ap negsuc (ground arith)
