-- ===== src/Json/Equal.antt =====
-- Whether two values of `json.loads` are the same, the order of their keys included.
use rebekah.Prelude.{◌≡◌, refl, ap, Bool, true, false, ◌&&◌, not}
use mathlib.Core.Path.{ap₂}
use rebekah.Prelude.Int.{int_eq, int_eq_sound}
use rebekah.Prelude.Text.{text_eq, text_eq_sound}
use rebekah.Json.{
  Json, null, boolean, int, float, str, arr, obj, Items, nil, cons, Fields, end, field,
}

abbrev bool_eq : Bool → Bool → Bool
bool_eq true b = b
bool_eq false b = not b

unfoldable mutual
  pub json_eq : Json → Json → Bool
  json_eq null null = true
  json_eq (boolean b) (boolean d) = bool_eq b d
  json_eq (int m) (int n) = int_eq m n
  json_eq (float s) (float t) = text_eq s t
  json_eq (str s) (str t) = text_eq s t
  json_eq (arr vs) (arr ws) = items_eq vs ws
  json_eq (obj fs) (obj gs) = fields_eq fs gs
  json_eq _ _ = false

  pub items_eq : Items → Items → Bool
  items_eq nil nil = true
  items_eq (cons v vs) (cons w ws) = json_eq v w && items_eq vs ws
  items_eq _ _ = false

  pub fields_eq : Fields → Fields → Bool
  fields_eq end end = true
  fields_eq (field k v fs) (field j w gs) = text_eq k j && (json_eq v w && fields_eq fs gs)
  fields_eq _ _ = false

bool_eq_sound : (b d : Bool) → bool_eq b d ≡ true → b ≡ d
bool_eq_sound true d h = cc h
bool_eq_sound false true h = cc h
bool_eq_sound false false h = refl

and_parts : (b d : Bool) → (b && d) ≡ true → (b ≡ true) × (d ≡ true)
and_parts true d h = (refl, h)
and_parts false d h = absurd (cc h)

mutual
  unfolding json_eq

  pub json_eq_sound : (v w : Json) → json_eq v w ≡ true → v ≡ w
  json_eq_sound null null h = refl
  json_eq_sound (boolean b) (boolean d) h = ap boolean (bool_eq_sound b d h)
  json_eq_sound (int m) (int n) h = ap int (int_eq_sound m n h)
  json_eq_sound (float s) (float t) h = ap float (text_eq_sound s t h)
  json_eq_sound (str s) (str t) h = ap str (text_eq_sound s t h)
  json_eq_sound (arr vs) (arr ws) h = ap arr (items_eq_sound vs ws h)
  json_eq_sound (obj fs) (obj gs) h = ap obj (fields_eq_sound fs gs h)
  json_eq_sound _ _ h = absurd (cc h)

  pub items_eq_sound : (vs ws : Items) → items_eq vs ws ≡ true → vs ≡ ws
  items_eq_sound nil nil h = refl
  items_eq_sound (cons v vs) (cons w ws) h =
      let (a, b) = and_parts (json_eq v w) (items_eq vs ws) h in
      ap₂ cons (json_eq_sound v w a) (items_eq_sound vs ws b)
  items_eq_sound _ _ h = absurd (cc h)

  pub fields_eq_sound : (fs gs : Fields) → fields_eq fs gs ≡ true → fs ≡ gs
  fields_eq_sound end end h = refl
  fields_eq_sound (field k v fs) (field j w gs) h =
      let (a, b) = and_parts (text_eq k j) (json_eq v w && fields_eq fs gs) h in
      let (b', d) = and_parts (json_eq v w) (fields_eq fs gs) b in
      cc (text_eq_sound k j a, json_eq_sound v w b', fields_eq_sound fs gs d)
  fields_eq_sound _ _ h = absurd (cc h)
