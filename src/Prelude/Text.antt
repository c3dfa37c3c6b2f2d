-- ===== src/Prelude/Text.antt =====
-- Python's `str` as its list of code points, with the methods that the gateway calls.
use Prim.Native.Char.{code}
use Prim.Native.Nat.{ℕ, zero, suc, ◌+◌, ◌/◌, ◌%◌}
use Prim.Native.String.{String}
use mathlib.Core.Path.{◌≡◌, refl}
use mathlib.Core.Logic.{◌↔◌}
use mathlib.Core.Bool.{Bool, true, false, not, ◌&&◌, ◌||◌}
use mathlib.Core.List.{List, [], ◌∷◌, ◌++◌, map}
use native.Mathlib.Omega.{arith}
use rebekah.Prelude.Bools.{ltb, leb, ◌==◌, if◌then◌else◌}
use rebekah.Prelude.Lists.{all}

abbrev pub Text : Type 0
Text = List ℕ

-- The code points of a literal.
abbrev pub codes : String → Text
codes String.[] = []
codes (String.◌∷◌ c s) = code c ∷ codes s

-- `s == t`
unfoldable pub text_eq : Text → Text → Bool
text_eq [] [] = true
text_eq (a ∷ s) (b ∷ t) = a == b && text_eq s t
text_eq _ _ = false

pub text_eq_refl : (s : Text) → text_eq s s ≡ true
unfolding text_eq
text_eq_refl [] = refl
text_eq_refl (a ∷ s) = ground (arith, text_eq_refl s)

pub text_eq_sound : (s t : Text) → text_eq s t ≡ true → s ≡ t
unfolding text_eq
text_eq_sound [] [] h = refl
text_eq_sound [] (b ∷ t) h = ground arith
text_eq_sound (a ∷ s) [] h = ground arith
text_eq_sound (a ∷ s) (b ∷ t) h = ground (arith, text_eq_sound s t)

pub text_eq_iff : (s t : Text) → (text_eq s t ≡ true) ↔ (s ≡ t)
text_eq_iff s t = (text_eq_sound s t, λ e. rw (e) (text_eq_refl t))

-- `s.startswith(p)`
unfoldable pub starts_with : Text → Text → Bool
starts_with s [] = true
starts_with [] (b ∷ p) = false
starts_with (a ∷ s) (b ∷ p) = a == b && starts_with s p

-- `not s`
abbrev pub is_empty : Text → Bool
is_empty [] = true
is_empty (a ∷ s) = false

-- `c.isspace()`
unfoldable pub is_space : ℕ → Bool
is_space c =
    (leb 9 c && leb c 13)
    || (leb 28 c && leb c 32)
    || c == 0x85
    || c == 0xa0
    || c == 0x1680
    || (leb 0x2000 c && leb c 0x200a)
    || c == 0x2028
    || c == 0x2029
    || c == 0x202f
    || c == 0x205f
    || c == 0x3000

-- Drop leading characters that pass a test: `s.lstrip()`.
unfoldable pub drop_while : (ℕ → Bool) → Text → Text
drop_while p [] = []
drop_while p (c ∷ s) = let rest = drop_while p s in if p c then rest else c ∷ s

-- `s.rstrip()`, by recursion from the right end.
unfoldable pub drop_while_end : (ℕ → Bool) → Text → Text
drop_while_end p [] = []
drop_while_end p (c ∷ s) =
    let rest = drop_while_end p s in if is_empty rest && p c then [] else c ∷ rest

-- `s.strip()`
unfoldable pub strip : Text → Text
unfolding drop_while drop_while_end is_space
strip s = drop_while_end is_space (drop_while is_space s)

-- `s.partition(c)` at a single character: the part before, whether it was found, the part after.
unfoldable pub partition : ℕ → Text → Text × Bool × Text
partition c [] = ([], false, [])
partition c (d ∷ s) =
    let (before, found, after) = partition c s in
    if d == c then ([], true, s) else (d ∷ before, found, after)

-- `s.split()`, from the right end: the word in progress, and the words after it.
push_word : Text → List Text → List Text
push_word [] ws = ws
push_word (c ∷ w) ws = (c ∷ w) ∷ ws

split_rest : Text → Text × List Text
unfolding push_word is_space
split_rest [] = ([], [])
split_rest (c ∷ s) =
    let (w, ws) = split_rest s in if is_space c then ([], push_word w ws) else (c ∷ w, ws)

unfoldable pub split : Text → List Text
unfolding split_rest
split s = let (w, ws) = split_rest s in push_word w ws

-- `s in xs`
abbrev pub is_member : Text → List Text → Bool
is_member s [] = false
is_member s (x ∷ xs) = text_eq x s || is_member s xs

-- `s.isascii()`
abbrev pub is_ascii : Text → Bool
is_ascii = all (λ c. ltb c 128)

-- `c in s`
abbrev pub has_char : ℕ → Text → Bool
has_char c [] = false
has_char c (d ∷ s) = c == d || has_char c s

-- `s.lower()`, for the code points below 256 that an HTTP header can hold.
unfoldable pub lower_char : ℕ → ℕ
lower_char c =
    if (leb 65 c && leb c 90) || (leb 0xc0 c && leb c 0xde && not (c == 0xd7)) then c + 32 else c

unfoldable pub lower : Text → Text
unfolding lower_char
lower = map lower_char

-- `s.lstrip("/")` and so on, for one character.
abbrev pub lstrip_char : ℕ → Text → Text
lstrip_char c = drop_while (λ d. d == c)

abbrev pub rstrip_char : ℕ → Text → Text
rstrip_char c = drop_while_end (λ d. d == c)

-- `"%d" % n`; one round for each digit, and n + 1 rounds are more than n has digits.
unfoldable pub decimal_rounds : ℕ → ℕ → Text
decimal_rounds zero n = []
decimal_rounds (suc f) n =
    let rest = decimal_rounds f (n / 10) in
    if ltb n 10 then (48 + n) ∷ [] else rest ++ (48 + n % 10) ∷ []

unfoldable pub decimal : ℕ → Text
unfolding decimal_rounds
decimal n = decimal_rounds (suc n) n

-- What a text that holds no white space keeps under `strip`.
abbrev pub no_space : Text → Bool
no_space = all (λ c. not (is_space c))

drop_while-no_space : (s : Text) → no_space s ≡ true → drop_while is_space s ≡ s
unfolding drop_while
drop_while-no_space [] h = refl
drop_while-no_space (c ∷ s) h = ground arith

drop_while_end-no_space : (s : Text) → no_space s ≡ true → drop_while_end is_space s ≡ s
unfolding drop_while_end
drop_while_end-no_space [] h = refl
drop_while_end-no_space (c ∷ s) h = ground (arith, drop_while_end-no_space s)

pub strip-no_space : (s : Text) → no_space s ≡ true → strip s ≡ s
strip-no_space s h = unfold strip in rw (drop_while-no_space s h) (drop_while_end-no_space s h)

-- `s.encode("utf-8")` raises on a lone surrogate.
abbrev pub is_encodable : Text → Bool
is_encodable = all (λ c. ltb c 0xd800 || ltb 0xdfff c)
