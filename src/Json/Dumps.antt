-- ===== src/Json/Dumps.antt =====
-- `json.dumps(value, sort_keys=True)`, which nix/gateway.py's `_text` prints a value by, and
-- `_text` itself.
use rebekah.Prelude.{
  ℕ, suc, ◌+◌, ◌-◌, ◌/◌, ◌%◌, ◌≤◌, ◌≡◌, true, false, ◌&&◌, Option, none, some, List, [], ◌∷◌, ◌++◌,
  ltb, leb, ◌==◌, if◌then◌else◌, take, length, length-take_le, arith,
}
use rebekah.Prelude.Int.{ℤ, pos, negsuc}
use rebekah.Prelude.Text.{Text, codes, decimal}
use rebekah.Prelude.Sort.{text_lt}
use rebekah.Json.{
  Json, null, boolean, int, float, str, arr, obj, Items, nil, cons, Fields, end, field,
}

hex_digit : ℕ → ℕ
hex_digit d = if ltb d 10 then 48 + d else 87 + d

-- `\uXXXX`
escape_unit : ℕ → Text
unfolding hex_digit
escape_unit c =
    b'\\'
    ∷ b'u'
    ∷ hex_digit (c / 4096 % 16)
    ∷ hex_digit (c / 256 % 16)
    ∷ hex_digit (c / 16 % 16)
    ∷ hex_digit (c % 16)
    ∷ []

-- `ensure_ascii`: what is not printable ASCII is escaped, above 0xffff as a surrogate pair.
escape_char : ℕ → Text
unfolding escape_unit
escape_char c =
    if c == 34
    then 92 ∷ 34 ∷ []
    else if c == 92
    then 92 ∷ 92 ∷ []
    else if c == 10
    then codes "\\n"
    else if c == 13
    then codes "\\r"
    else if c == 9
    then codes "\\t"
    else if c == 12
    then codes "\\f"
    else if c == 8
    then codes "\\b"
    else if leb 32 c && leb c 126
    then c ∷ []
    else if ltb c 0x10000
    then escape_unit c
    else escape_unit (0xd800 + (c - 0x10000) / 1024) ++ escape_unit (0xdc00 + (c - 0x10000) % 1024)

escape : Text → Text
unfolding escape_char
escape [] = []
escape (c ∷ s) = escape_char c ++ escape s

quote : Text → Text
unfolding escape
quote s = 34 ∷ (escape s ++ 34 ∷ [])

dumps_int : ℤ → Text
unfolding decimal
dumps_int (pos n) = decimal n
dumps_int (negsuc n) = 45 ∷ decimal (suc n)

-- Insert a printed item into items that are sorted by key.
insert_sorted : Text → Text → List (Text × Text) → List (Text × Text)
unfolding text_lt
insert_sorted k v [] = (k, v) ∷ []
insert_sorted k v ((j, w) ∷ d) =
    if text_lt j k then (j, w) ∷ insert_sorted k v d else (k, v) ∷ (j, w) ∷ d

-- Items are arranged in the order of the dict or sorted by key, and the two separators are `", "` and
-- `": "` by default.
module _ (arrange : Text → Text → List (Text × Text) → List (Text × Text))
    (comma colon : Text) where
  join_items : List Text → Text
  join_items [] = []
  join_items (s ∷ []) = s
  join_items (s ∷ t ∷ r) = s ++ (comma ++ join_items (t ∷ r))

  print_fields : List (Text × Text) → List Text
  unfolding quote
  print_fields [] = []
  print_fields ((k, v) ∷ d) = (quote k ++ (colon ++ v)) ∷ print_fields d

  unfoldable mutual
    unfolding dumps_int quote join_items print_fields

    pub dumps_with : Json → Text
    dumps_with null = codes "null"
    dumps_with (boolean true) = codes "true"
    dumps_with (boolean false) = codes "false"
    dumps_with (int n) = dumps_int n
    dumps_with (float t) = t
    dumps_with (str s) = quote s
    dumps_with (arr vs) = 91 ∷ (join_items (dumps_items vs) ++ 93 ∷ [])
    dumps_with (obj fs) = 123 ∷ (join_items (print_fields (dumps_fields fs)) ++ 125 ∷ [])

    dumps_items : Items → List Text
    dumps_items nil = []
    dumps_items (cons v vs) = dumps_with v ∷ dumps_items vs

    dumps_fields : Fields → List (Text × Text)
    dumps_fields end = []
    dumps_fields (field k v fs) = arrange k (dumps_with v) (dumps_fields fs)

-- `json.dumps(value, sort_keys=True)`
unfoldable pub dumps : Json → Text
unfolding insert_sorted
dumps v = dumps_with insert_sorted (codes ", ") (codes ": ") v

-- `json.dumps(value, sort_keys=True, separators=(",", ":"))`
unfoldable pub dumps_compact : Json → Text
unfolding insert_sorted
dumps_compact v = dumps_with insert_sorted (codes ",") (codes ":") v

abbrev in_order : Text → Text → List (Text × Text) → List (Text × Text)
in_order k v d = (k, v) ∷ d

-- `json.dumps(value)`
unfoldable pub dumps_in_order : Json → Text
dumps_in_order v = dumps_with in_order (codes ", ") (codes ": ") v

-- `value if isinstance(value, str) else json.dumps(value, sort_keys=True)`
abbrev pub spelled : Json → Text
spelled (str s) = s
spelled v = dumps v

-- `_text`
unfoldable pub text_of : Json → ℕ → Option Text
text_of null limit = none
text_of v limit = some (take limit (spelled v))

-- A printed value is never longer than its limit.
pub text_of-bound : (v : Json) (limit : ℕ) {s : Text} → text_of v limit ≡ some s → length s ≤ limit
unfolding text_of
text_of-bound null limit h = ground arith
text_of-bound v limit h = ground (arith, length-take_le limit (spelled v))

-- `json.dumps(value, separators=(",", ":"))`
unfoldable pub dumps_unsorted : Json → Text
dumps_unsorted v = dumps_with in_order (codes ",") (codes ":") v
