-- ===== src/Oci/Index.antt =====
-- `by_digest` of tools/oci_inspect.py: what the dict of the artifacts holds.
use rebekah.Prelude.{
  suc, ◌+◌, ◌≤◌, ◌<◌, ◌≡◌, refl, true, false, some, List, [], ◌∷◌, arith, inl, inr, All, Bool-cases,
  length, is_some,
}
use mathlib.Core.Path.{subst}
use rebekah.Prelude.Text.{Text, text_eq, text_eq_iff, text_eq_refl, is_member}
use rebekah.Prelude.Dict.{Dict, lookup, insert, lookup-insert, length-insert, lookup-nil}
use rebekah.Oci.Inspect.{Artifact, target_of, index_from, by_digest}
use rebekah.Oci.Cycles.{Known, IsIndex, remaining}

abbrev pub digests : List Artifact → List Text
digests [] = []
digests (a ∷ rest) = a.own.digest ∷ digests rest

abbrev pub Distinct : List Text → Type 0
Distinct [] = Unit
Distinct (k ∷ ks) = (is_member k ks ≡ false) × Distinct ks

-- What an artifact is verified to refer to is among the digests.
abbrev pub Resolved : List Text → Artifact → Type 0
Resolved keys a = (t : Text) → target_of a ≡ some t → is_member t keys ≡ true

module _ (P : Text → Artifact → Type 0) where
  index_from_all :
      (rest : List Artifact) (d : Dict Artifact)
      → ((k : Text) (b : Artifact) → lookup k d ≡ some b → P k b)
      → All (λ a. P a.own.digest a) rest
      → (k : Text) (b : Artifact) → lookup k (index_from d rest) ≡ some b
      → P k b
  unfolding index_from
  index_from_all [] d before all = before
  index_from_all (a ∷ rest) d before all =
      index_from_all rest (insert a.own.digest a d) inserted all.1
    where
      inserted : (k : Text) (b : Artifact) → lookup k (insert a.own.digest a d) ≡ some b → P k b
      inserted k b e = elim (Bool-cases (text_eq a.own.digest k)) [
        | inl same ↦
            let here : some a ≡ some b = ground (arith, lookup-insert a.own.digest k a d) in
            subst (λ x. P k x) (cc here)
              (subst (λ x. P x a) ((text_eq_iff a.own.digest k).0 same) all.0)
        | inr other ↦ before k b (ground (arith, lookup-insert a.own.digest k a d))
      ]

lookup-index_from :
    (rest : List Artifact) (d : Dict Artifact) (k : Text)
    → is_member k (digests rest) ≡ false
    → lookup k (index_from d rest) ≡ lookup k d
unfolding index_from
lookup-index_from [] d k m = refl
lookup-index_from (a ∷ rest) d k m =
    ground
      (arith, lookup-index_from rest (insert a.own.digest a d) k, lookup-insert a.own.digest k a d)

has_key-index_from :
    (rest : List Artifact) (d : Dict Artifact) (k : Text)
    → is_member k (digests rest) ≡ true
    → is_some (lookup k (index_from d rest)) ≡ true
unfolding index_from
has_key-index_from [] d k m = cc
has_key-index_from (a ∷ rest) d k m = elim (Bool-cases (is_member k (digests rest))) [
  | inl later ↦ has_key-index_from rest (insert a.own.digest a d) k later
  | inr e ↦ ground (
    arith,
    lookup-index_from rest (insert a.own.digest a d) k e,
    lookup-insert a.own.digest k a d,
  )
]

known_from :
    (rest : List Artifact) (d : Dict Artifact)
    → Distinct (digests rest)
    → All (λ a. lookup a.own.digest (index_from d rest) ≡ some a) rest
unfolding index_from
known_from [] d h = tt
known_from (a ∷ rest) d h = (
  rw
      (
        lookup-index_from rest (insert a.own.digest a d) a.own.digest h.0,
        lookup-insert,
        text_eq_refl,
      )
      refl,
  known_from rest (insert a.own.digest a d) h.1,
)

length-index_from :
    (rest : List Artifact) (d : Dict Artifact) → length (index_from d rest) ≤ length rest + length d
unfolding index_from
length-index_from [] d = omega arith
length-index_from (a ∷ rest) d =
    omega (arith, length-index_from rest (insert a.own.digest a d), length-insert a.own.digest a d)

remaining-nil : (d : Dict Artifact) → remaining [] d ≡ length d
remaining-nil [] = refl
remaining-nil ((k, b) ∷ d) = omega (arith, remaining-nil d)

module _ (artifacts : List Artifact) where
  pub remaining-by_digest : remaining [] (by_digest artifacts) < suc (length artifacts)
  unfolding by_digest
  remaining-by_digest =
      omega (arith, remaining-nil (index_from [] artifacts), length-index_from artifacts [])

  module _ (distinct : Distinct (digests artifacts)) where
    pub by_digest-Known : All (Known (by_digest artifacts)) artifacts
    unfolding by_digest
    by_digest-Known = known_from artifacts [] distinct

    pub by_digest-IsIndex :
        All (Resolved (digests artifacts)) artifacts → IsIndex (by_digest artifacts)
    unfolding by_digest
    by_digest-IsIndex resolved = record {
      keyed =
          index_from_all (λ k b. b.own.digest ≡ k) artifacts [] (λ k b e. cc (e, lookup-nil k))
            (trivial artifacts);
      resolved = λ a t known e. has_key-index_from artifacts [] t (
          index_from_all (λ k b. Resolved (digests artifacts) b) artifacts []
            (λ k b f. absurd (cc (f, lookup-nil k))) resolved a.own.digest a known t e);
    }
      where
        trivial : (rest : List Artifact) → All (λ a. a.own.digest ≡ a.own.digest) rest
        trivial [] = tt
        trivial (a ∷ rest) = (refl, trivial rest)
