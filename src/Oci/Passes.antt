-- ===== src/Oci/Passes.antt =====
-- What the passes of `inspect` of tools/oci_inspect.py leave: the digests, each once, and subjects
-- that are among them.
use rebekah.Prelude.{
  ◌≡◌, refl, ap, ◌∙◌, true, false, not, Option, none, some, List, [], ◌∷◌, map, arith, ◌⊎◌, inl,
  inr, All, Bool-cases, is_some,
}
use mathlib.Core.Path.{subst}
use rebekah.Prelude.Text.{Text, codes, text_eq, text_eq_iff, is_member}
use rebekah.Prelude.Dict.{Dict, lookup, insert, has_key, lookup-insert}
use rebekah.Prelude.Exec.{ok}
use rebekah.Json.{Json}
use rebekah.Oci.Refusal.{each, ensure, bind_ok, ensure-not}
use rebekah.Oci.Disk.{Host, Disk, Descriptor}
use rebekah.Oci.Inspect.{
  Artifact, target_of, append_referrer, refer_to, link, link_all, sort_referrers, rate, rated,
  compared, artifact_of, scan,
}
use rebekah.Oci.Index.{digests, Distinct, Resolved}

-- What the scan of the index leaves: each digest once, none that was seen before, and in the dict
-- no other ones than these.
pub record IsScanned (seen final : Dict Descriptor) (artifacts : List Artifact) : Type 0 where
  pub distinct : Distinct (digests artifacts)
  pub fresh : (k : Text) → is_some (lookup k seen) ≡ true → is_member k (digests artifacts) ≡ false
  pub keys :
      (k : Text)
      → is_some (lookup k final) ≡ true
      → (is_some (lookup k seen) ≡ true) ⊎ (is_member k (digests artifacts) ≡ true)

IsScanned-cons :
    (a : Artifact) (rest : List Artifact) (seen final : Dict Descriptor)
    → has_key a.own.digest seen ≡ false
    → IsScanned (insert a.own.digest a.own seen) final rest
    → IsScanned seen final (a ∷ rest)
IsScanned-cons a rest seen final new h = record {
  distinct = (h.fresh a.own.digest (inserted a.own.digest), h.distinct);
  fresh = λ k e.
      ground
        (arith, h.fresh k, lookup-insert a.own.digest k a.own seen, text_eq_iff a.own.digest k);
  keys = λ k e. ground (arith, h.keys k, lookup-insert a.own.digest k a.own seen);
}
  where
    inserted : (k : Text) → is_some (lookup k (insert k a.own seen)) ≡ true
    inserted k = ground (arith, lookup-insert k k a.own seen, text_eq_iff k k)

module _ (h : Host) (disk : Disk) where
  pub scan-IsScanned :
      (vs : List Json) (seen : Dict Descriptor) (found : List Artifact × Dict Descriptor)
      → scan h disk vs seen ≡ ok found
      → IsScanned seen found.1 found.0
  unfolding scan
  scan-IsScanned [] seen found e =
      subst (λ (x : List Artifact × Dict Descriptor). IsScanned seen x.1 x.0) {x = ([], seen)}
        (cc e) (record { distinct = tt; fresh = λ k e. refl; keys = λ k e. inl e })
  scan-IsScanned (v ∷ vs) seen found e =
      let (a, read_a, e1) = bind_ok (artifact_of h disk v) _ e in
      let (u, new, e2) =
        bind_ok (ensure (not (has_key a.own.digest seen)) (codes "duplicate OCI manifest digest")) _
          e1 in
      let (rest, scanned, e3) = bind_ok (scan h disk vs (insert a.own.digest a.own seen)) _ e2 in
      subst (λ (x : List Artifact × Dict Descriptor). IsScanned seen x.1 x.0)
        {x = (a ∷ rest.0, rest.1)} (cc e3)
        (IsScanned-cons a rest.0 seen rest.1
          (ensure-not (has_key a.own.digest seen) (codes "duplicate OCI manifest digest") new)
          (scan-IsScanned vs (insert a.own.digest a.own seen) rest scanned))

-- The pass over the subjects.
abbrev Rated : Dict Descriptor → Artifact → Artifact → Type 0
Rated seen a b =
    (b.own ≡ a.own) × ((t : Text) → target_of b ≡ some t → is_some (lookup t seen) ≡ true)

compared-Rated :
    (seen : Dict Descriptor) (a b : Artifact) (s : Descriptor) (o : Option Descriptor)
    → lookup s.digest seen ≡ o
    → a.subject ≡ some s
    → compared a s o ≡ ok b
    → Rated seen a b
compared-Rated seen a b s none e e' h = ground arith
compared-Rated seen a b s (some target) e e' h = ground arith

rated-Rated :
    (seen : Dict Descriptor) (a b : Artifact) (o : Option Descriptor)
    → a.subject ≡ o
    → rated seen a o ≡ ok b
    → Rated seen a b
rated-Rated seen a b none e h = ground arith
rated-Rated seen a b (some s) e h = compared-Rated seen a b s (lookup s.digest seen) refl e h

pub each-rate :
    (seen : Dict Descriptor) (xs ys : List Artifact)
    → each (rate seen) xs ≡ ok ys
    → (digests ys ≡ digests xs)
      × All (λ b. (t : Text) → target_of b ≡ some t → is_some (lookup t seen) ≡ true) ys
unfolding each rate
each-rate seen [] [] e = (refl, tt)
each-rate seen [] (y ∷ ys) e = absurd (cc e)
each-rate seen (x ∷ xs) ys e =
    let (b, one, e1) = bind_ok (rated seen x x.subject) _ e in
    let (bs, others, e2) = bind_ok (each (rate seen) xs) _ e1 in
    let first = rated-Rated seen x b x.subject refl one in
    let (same, rest) = each-rate seen xs bs others in
    subst
      (λ zs.
        (digests zs ≡ digests (x ∷ xs))
        × All (λ b. (t : Text) → target_of b ≡ some t → is_some (lookup t seen) ≡ true) zs)
      {x = b ∷ bs} (cc e2) (cc (first.0, same), (first.1, rest))

-- The passes over the referrers keep the digests and the subjects.
abbrev pub Kept : List Text → List Artifact → Type 0
Kept keys artifacts = (digests artifacts ≡ keys) × All (Resolved keys) artifacts

module _ (keys : List Text) where
  append_referrer-All :
      (target digest : Text) (xs : List Artifact)
      → All (Resolved keys) xs
      → All (Resolved keys) (append_referrer target digest xs)
  unfolding append_referrer
  append_referrer-All target digest [] h = tt
  append_referrer-All target digest (a ∷ rest) h = elim (Bool-cases (text_eq a.own.digest target)) [
    | inl e ↦ rw e (h.0, append_referrer-All target digest rest h.1)
    | inr e ↦ rw e (h.0, append_referrer-All target digest rest h.1)
  ]

  digests-append_referrer :
      (target digest : Text) (xs : List Artifact)
      → digests (append_referrer target digest xs) ≡ digests xs
  unfolding append_referrer
  digests-append_referrer target digest [] = refl
  digests-append_referrer target digest (a ∷ rest) =
      ground (arith, digests-append_referrer target digest rest)

  refer_to-Kept :
      (o : Option Text) (digest : Text) (xs : List Artifact)
      → Kept keys xs
      → Kept keys (refer_to o digest xs)
  refer_to-Kept none digest xs h = h
  refer_to-Kept (some target) digest xs h =
      (digests-append_referrer target digest xs ∙ h.0, append_referrer-All target digest xs h.1)

  link-Kept : (rest xs : List Artifact) → Kept keys xs → Kept keys (link rest xs)
  unfolding link
  link-Kept [] xs h = h
  link-Kept (a ∷ rest) xs h =
      link-Kept rest (refer_to (target_of a) a.own.digest xs)
        (refer_to-Kept (target_of a) a.own.digest xs h)

  sorted_all :
      (xs : List Artifact) → All (Resolved keys) xs → All (Resolved keys) (map sort_referrers xs)
  sorted_all [] h = tt
  sorted_all (a ∷ rest) h = (h.0, sorted_all rest h.1)

  digests_sorted : (xs : List Artifact) → digests (map sort_referrers xs) ≡ digests xs
  digests_sorted [] = refl
  digests_sorted (a ∷ rest) = ap (λ ks. a.own.digest ∷ ks) (digests_sorted rest)

  pub link_all-Kept : (xs : List Artifact) → Kept keys xs → Kept keys (link_all xs)
  unfolding link_all
  link_all-Kept xs h =
      let linked = link-Kept xs xs h in
      (digests_sorted (link xs xs) ∙ linked.0, sorted_all (link xs xs) linked.1)
