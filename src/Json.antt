-- ===== src/Json.antt =====
-- The values that `json.loads` returns, and the ways in which the gateway (nix/gateway.py) reads
-- them: `isinstance`, truth, `.get` with the exception that it raises on other types, and
-- `json.dumps(value, sort_keys=True)`.
pub mod Dumps
pub mod Canonical
pub mod Equal
use rebekah.Prelude.{
  ℕ, zero, Bool, true, false, not, ◌||◌, Option, none, some, List, [], ◌∷◌, if◌then◌else◌,
}
use rebekah.Prelude.Int.{ℤ, pos, negsuc}
use rebekah.Prelude.Text.{Text, codes, text_eq, is_empty}
use rebekah.Prelude.Dict.{Dict, lookup}
use rebekah.Prelude.Exec.{Result, ok, err, Raised, attribute_error, type_error}

-- A float is kept as `json.dumps` prints it. A `dict` has its items in insertion order.
mutual
  pub data Json : Type 0 where
    null : Json
    boolean : Bool → Json
    int : ℤ → Json
    float : Text → Json
    str : Text → Json
    arr : Items → Json
    obj : Fields → Json

  pub data Items : Type 0 where
    nil : Items
    cons : Json → Items → Items

  pub data Fields : Type 0 where
    end : Fields
    field : Text → Json → Fields → Fields

abbrev pub elements : Items → List Json
elements nil = []
elements (cons v vs) = v ∷ elements vs

abbrev pub entries : Fields → Dict Json
entries end = []
entries (field k v fs) = (k, v) ∷ entries fs

abbrev pub to_items : List Json → Items
to_items [] = nil
to_items (v ∷ vs) = cons v (to_items vs)

abbrev pub to_fields : Dict Json → Fields
to_fields [] = end
to_fields ((k, v) ∷ d) = field k v (to_fields d)

-- `[...]` and `{...}`
abbrev pub array : List Json → Json
array vs = arr (to_items vs)

abbrev pub object : Dict Json → Json
object d = obj (to_fields d)

-- A truth value of the source's `if v:` and `v or w`.
unfoldable pub is_truthy : Json → Bool
is_truthy null = false
is_truthy (boolean b) = b
is_truthy (int (pos zero)) = false
is_truthy (int _) = true
is_truthy (float t) = not (text_eq t (codes "0.0") || text_eq t (codes "-0.0"))
is_truthy (str s) = not (is_empty s)
is_truthy (arr nil) = false
is_truthy (arr (cons v vs)) = true
is_truthy (obj end) = false
is_truthy (obj (field k v fs)) = true

-- `v or w`
unfoldable pub or_value : Json → Json → Json
unfolding is_truthy
or_value v w = if is_truthy v then v else w

abbrev pub is_null : Json → Bool
is_null null = true
is_null _ = false

-- `isinstance(v, dict)`, with the dict.
abbrev pub as_dict : Json → Option (Dict Json)
as_dict (obj fs) = some (entries fs)
as_dict _ = none

abbrev pub as_list : Json → Option (List Json)
as_list (arr vs) = some (elements vs)
as_list _ = none

abbrev pub as_text : Json → Option Text
as_text (str s) = some s
as_text _ = none

-- `isinstance(v, int) and not isinstance(v, bool)`
abbrev pub as_int : Json → Option ℤ
as_int (int n) = some n
as_int _ = none

abbrev pub as_bool : Json → Option Bool
as_bool (boolean b) = some b
as_bool _ = none

abbrev pub or_null : Option Json → Json
or_null none = null
or_null (some v) = v

-- `d.get(k)` of a dict.
unfoldable pub get : Dict Json → Text → Json
unfolding lookup
get d k = or_null (lookup k d)

-- `v.get(k)` of any value: only a dict has the method.
unfoldable pub get_of : Json → Text → Result Raised Json
unfolding get
get_of (obj fs) k = ok (get (entries fs) k)
get_of _ k = err attribute_error

-- `for x in v`, where `v` is no text: a dict yields its keys.
abbrev keys_of : Fields → List Json
keys_of end = []
keys_of (field k v fs) = str k ∷ keys_of fs

abbrev chars_of : Text → List Json
chars_of [] = []
chars_of (c ∷ s) = str (c ∷ []) ∷ chars_of s

unfoldable pub iterate : Json → Result Raised (List Json)
iterate (arr vs) = ok (elements vs)
iterate (obj fs) = ok (keys_of fs)
iterate (str s) = ok (chars_of s)
iterate _ = err type_error

-- `v or {}` and `v or []`
abbrev pub or_dict : Json → Json
or_dict v = or_value v (obj end)

abbrev pub or_list : Json → Json
or_list v = or_value v (arr nil)

-- Whether Python can hash the value, to look it up in a dict or a set.
abbrev pub is_hashable : Json → Bool
is_hashable (arr _) = false
is_hashable (obj _) = false
is_hashable _ = true

-- The dict that a value is, or an empty one.
abbrev pub dict_or_nil : Option Json → Dict Json
dict_or_nil none = []
dict_or_nil (some v) = elim (as_dict v) [ none ↦ [] | some d ↦ d ]
