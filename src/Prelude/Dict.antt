-- ===== src/Prelude/Dict.antt =====
-- Python's `dict` with text keys, in insertion order. An SQLite table with a text primary key is
-- one too.
use mathlib.Core.Path.{◌≡◌, refl}
use mathlib.Core.Bool.{Bool}
use mathlib.Core.Option.{Option, none, some}
use mathlib.Core.List.{List, [], ◌∷◌}
use Prim.Native.Nat.{suc, ◌≤◌}
use native.Mathlib.Omega.{arith}
use rebekah.Prelude.Bools.{if◌then◌else◌, is_some}
use rebekah.Prelude.Lists.{length}
use rebekah.Prelude.Text.{Text, text_eq, text_eq_iff}

abbrev pub Dict {ℓ} : Type ℓ → Type ℓ
Dict V = List (Text × V)

module _ {ℓ} {V : Type ℓ} where
  -- `d.get(k)`
  unfoldable pub lookup : Text → Dict V → Option V
  lookup k [] = none
  lookup k ((j, v) ∷ d) = let rest = lookup k d in if text_eq j k then some v else rest

  -- `d[k] = v`: a key that is there keeps its place.
  unfoldable pub insert : Text → V → Dict V → Dict V
  insert k v [] = (k, v) ∷ []
  insert k v ((j, w) ∷ d) = if text_eq j k then (j, v) ∷ d else (j, w) ∷ insert k v d

  -- `d.pop(k, None)`
  unfoldable pub erase : Text → Dict V → Dict V
  erase k [] = []
  erase k ((j, w) ∷ d) = let rest = erase k d in if text_eq j k then rest else (j, w) ∷ rest

  -- `k in d`
  abbrev pub has_key : Text → Dict V → Bool
  has_key k d = is_some (lookup k d)

  pub lookup-insert :
      (k j : Text) (v : V) (d : Dict V)
      → lookup j (insert k v d) ≡ (if text_eq k j then some v else lookup j d)
  unfolding lookup insert
  lookup-insert k j v [] = refl
  lookup-insert k j v ((i, w) ∷ d) =
      ground (arith, text_eq_iff k j, text_eq_iff i k, text_eq_iff i j, lookup-insert k j v d)

  pub lookup-erase :
      (k j : Text) (d : Dict V) → lookup j (erase k d) ≡ (if text_eq k j then none else lookup j d)
  unfolding lookup erase
  lookup-erase k j [] = ground arith
  lookup-erase k j ((i, w) ∷ d) =
      ground (arith, text_eq_iff k j, text_eq_iff i k, text_eq_iff i j, lookup-erase k j d)

  pub lookup-nil : (k : Text) → lookup k [] ≡ none
  unfolding lookup
  lookup-nil k = refl

  pub length-insert : (k : Text) (v : V) (d : Dict V) → length (insert k v d) ≤ suc (length d)
  unfolding insert
  length-insert k v [] = omega arith
  length-insert k v ((j, w) ∷ d) = ground (arith, length-insert k v d)

pub ruleset dict_laws = (lookup-nil, lookup-insert, lookup-erase)
