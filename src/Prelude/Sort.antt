-- ===== src/Prelude/Sort.antt =====
-- `sorted` on texts, and the percent encoding of `urllib.parse.quote`.
use Prim.Native.Nat.{ℕ, ◌+◌, ◌/◌, ◌%◌}
use mathlib.Core.Bool.{Bool, true, false, ◌&&◌, ◌||◌}
use mathlib.Core.List.{List, [], ◌∷◌, ◌++◌}
use rebekah.Prelude.Bools.{ltb, leb, ◌==◌, if◌then◌else◌}
use rebekah.Prelude.Text.{Text}

-- `s < t`, by code points.
unfoldable pub text_lt : Text → Text → Bool
text_lt s [] = false
text_lt [] (b ∷ t) = true
text_lt (a ∷ s) (b ∷ t) = let rest = text_lt s t in if a == b then rest else ltb a b

-- Behind every text that is not greater.
unfoldable pub insert_text : Text → List Text → List Text
insert_text k [] = k ∷ []
insert_text k (j ∷ ks) = if text_lt k j then k ∷ j ∷ ks else j ∷ insert_text k ks

unfoldable pub sorted : List Text → List Text
unfolding insert_text text_lt
sorted [] = []
sorted (k ∷ ks) = insert_text k (sorted ks)

-- `s.encode("utf-8")` of one code point.
unfoldable pub utf8 : ℕ → List ℕ
utf8 c =
    if ltb c 0x80
    then c ∷ []
    else if ltb c 0x800
    then (0xc0 + c / 64) ∷ (0x80 + c % 64) ∷ []
    else if ltb c 0x10000
    then (0xe0 + c / 4096) ∷ (0x80 + c / 64 % 64) ∷ (0x80 + c % 64) ∷ []
    else (0xf0 + c / 262144) ∷ (0x80 + c / 4096 % 64) ∷ (0x80 + c / 64 % 64) ∷ (0x80 + c % 64) ∷ []

upper_hex : ℕ → ℕ
upper_hex d = if ltb d 10 then 48 + d else 55 + d

percent : List ℕ → Text
unfolding upper_hex
percent [] = []
percent (b ∷ bs) = b'%' ∷ upper_hex (b / 16) ∷ upper_hex (b % 16) ∷ percent bs

is_unreserved : ℕ → Bool
is_unreserved c =
    (leb b'A' c && leb c b'Z')
    || (leb b'a' c && leb c b'z')
    || (leb b'0' c && leb c b'9')
    || c == b'_'
    || c == b'.'
    || c == b'-'
    || c == b'~'

-- `urllib.parse.quote(s, safe="")`
unfoldable pub quote : Text → Text
unfolding utf8 percent is_unreserved
quote [] = []
quote (c ∷ s) = (if is_unreserved c then c ∷ [] else percent (utf8 c)) ++ quote s
