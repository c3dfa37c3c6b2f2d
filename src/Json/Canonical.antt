-- ===== src/Json/Canonical.antt =====
-- What `json.loads` makes of a text that `json.dumps(v, sort_keys=True)` printed: the value with
-- the keys of each dict in order.
use rebekah.Prelude.{
  ◌≡◌, refl, ap, ◌∙◌, false, Option, none, some, [], ◌∷◌, if◌then◌else◌, arith, Bool-cases, inl,
  inr, map,
}
use rebekah.Prelude.Text.{Text, text_eq, text_eq_iff}
use rebekah.Prelude.Sort.{text_lt}
use rebekah.Prelude.Dict.{lookup}
use rebekah.Json.{
  Json, null, boolean, int, float, str, arr, obj, Items, nil, cons, Fields, end, field, entries,
  elements, get, or_null, is_truthy,
}

-- A field before the first that is not smaller.
unfoldable pub insert_field : Text → Json → Fields → Fields
insert_field k v end = field k v end
insert_field k v (field j w fs) =
    if text_lt j k then field j w (insert_field k v fs) else field k v (field j w fs)

unfoldable mutual
  pub canonical : Json → Json
  canonical null = null
  canonical (boolean b) = boolean b
  canonical (int n) = int n
  canonical (float t) = float t
  canonical (str s) = str s
  canonical (arr vs) = arr (canonical_items vs)
  canonical (obj fs) = obj (canonical_fields fs)

  pub canonical_items : Items → Items
  canonical_items nil = nil
  canonical_items (cons v vs) = cons (canonical v) (canonical_items vs)

  pub canonical_fields : Fields → Fields
  canonical_fields end = end
  canonical_fields (field k v fs) = insert_field k (canonical v) (canonical_fields fs)

text_lt_irrefl : (s : Text) → text_lt s s ≡ false
unfolding text_lt
text_lt_irrefl [] = refl
text_lt_irrefl (a ∷ s) = ground (arith, text_lt_irrefl s)

lookup-insert_field :
    (k i : Text) (v : Json) (fs : Fields)
    → lookup i (entries (insert_field k v fs))
      ≡ (if text_eq k i then some v else lookup i (entries fs))
unfolding lookup insert_field
lookup-insert_field k i v end = refl
lookup-insert_field k i v (field j w fs) =
    ground (arith, lookup-insert_field k i v fs, text_eq_iff k i, text_eq_iff j i, text_lt_irrefl i)

abbrev pub canonical_value : Option Json → Option Json
canonical_value none = none
canonical_value (some v) = some (canonical v)

pub lookup-canonical_fields :
    (i : Text) (fs : Fields)
    → lookup i (entries (canonical_fields fs)) ≡ canonical_value (lookup i (entries fs))
unfolding canonical lookup
lookup-canonical_fields i end = refl
lookup-canonical_fields i (field k v fs) =
    lookup-insert_field k i (canonical v) (canonical_fields fs)
    ∙ ground (arith, lookup-canonical_fields i fs)

-- A value of a canonical dict is the canonical value.
pub get-canonical_fields :
    (i : Text) (fs : Fields)
    → get (entries (canonical_fields fs)) i ≡ canonical (get (entries fs) i)
unfolding get canonical
get-canonical_fields i fs = rw (lookup-canonical_fields i fs) (by_value (lookup i (entries fs)))
  where
    by_value : (o : Option Json) → or_null (canonical_value o) ≡ canonical (or_null o)
    by_value none = refl
    by_value (some v) = refl

pub elements-canonical_items :
    (vs : Items) → elements (canonical_items vs) ≡ map canonical (elements vs)
unfolding canonical
elements-canonical_items nil = refl
elements-canonical_items (cons v vs) = ap (λ ws. canonical v ∷ ws) (elements-canonical_items vs)

insert_field-end :
    (k : Text) (v : Json) (fs : Fields)
    → (t : Text) × (w : Json) × (rest : Fields) × (insert_field k v fs ≡ field t w rest)
unfolding insert_field
insert_field-end k v end = (k, v, end, refl)
insert_field-end k v (field j w fs) = elim (Bool-cases (text_lt j k)) [
  | inl e ↦ (j, w, insert_field k v fs, rw e refl)
  | inr e ↦ (k, v, field j w fs, rw e refl)
]

-- Nor does it change whether a value is true.
pub is_truthy-canonical : (v : Json) → is_truthy (canonical v) ≡ is_truthy v
unfolding is_truthy canonical
is_truthy-canonical null = refl
is_truthy-canonical (boolean b) = refl
is_truthy-canonical (int n) = refl
is_truthy-canonical (float t) = refl
is_truthy-canonical (str s) = refl
is_truthy-canonical (arr nil) = refl
is_truthy-canonical (arr (cons v vs)) = refl
is_truthy-canonical (obj end) = refl
is_truthy-canonical (obj (field k v fs)) =
    let (t, w, rest, e) = insert_field-end k (canonical v) (canonical_fields fs) in rw e refl
