-- ===== src/Oci/Each.antt =====
-- What holds of every artifact as the passes of `inspect` of tools/oci_inspect.py go over them.
use rebekah.Prelude.{◌≡◌, not, Option, none, some, List, [], ◌∷◌, All, arith}
use mathlib.Core.Path.{subst}
use rebekah.Prelude.Text.{codes}
use rebekah.Prelude.Dict.{Dict, insert, has_key, lookup}
use rebekah.Prelude.Exec.{ok}
use rebekah.Json.{Json}
use rebekah.Oci.Refusal.{each, ensure, bind_ok, Yields, yields, then-Yields, Yields-ok}
use rebekah.Oci.Disk.{Host, Disk, Descriptor}
use rebekah.Oci.Inspect.{
  Artifact, Status, no_subject, unresolved, local_association, artifact_of, scan, rate, rated,
  compared, link_all, refuse_cycles, listed, assess, inspect,
}

-- A new artifact has no referrers.
pub artifact_of-blank :
    (h : Host) (disk : Disk) (v : Json) (a : Artifact)
    → artifact_of h disk v ≡ ok a
    → a.referrers ≡ []
artifact_of-blank h disk v a e = Yields-ok (made v) e
  where
    made : (w : Json) → Yields (λ a. a.referrers ≡ []) (artifact_of h disk w)
    made w = unfold artifact_of in search (then-Yields, yields) depth 12

-- What a successful inspection went through, for each part that its proofs use.
pub record Passed (h : Host) (disk : Disk) (artifacts : List Artifact) : Type 0 where
  pub manifests : List Json
  pub found : List Artifact × Dict Descriptor
  pub rated_ones : List Artifact
  pub scanned : scan h disk manifests [] ≡ ok found
  pub rates : each (rate found.1) found.0 ≡ ok rated_ones
  pub acyclic : refuse_cycles (link_all rated_ones) ≡ ok tt
  pub result : link_all rated_ones ≡ artifacts

pub inspect-Passed :
    (h : Host) (disk : Disk) (artifacts : List Artifact)
    → inspect h disk ≡ ok artifacts
    → Passed h disk artifacts
unfolding inspect assess
inspect-Passed h disk artifacts e =
    let (manifests, _, e1) = bind_ok (listed h disk) _ e in
    let (found, scanned, e2) = bind_ok (scan h disk manifests []) _ e1 in
    let (passed, rates, e3) = bind_ok (each (rate found.1) found.0) _ e2 in
    let (u, acyclic, e4) = bind_ok (refuse_cycles (link_all passed)) _ e3 in
    record {
      manifests = manifests;
      found = found;
      rated_ones = passed;
      scanned = scanned;
      rates = rates;
      acyclic = acyclic;
      result = cc e4;
    }

module _ (P : Artifact → Type 0) where
  module _ (h : Host) (disk : Disk)
      (made : (v : Json) (a : Artifact) → artifact_of h disk v ≡ ok a → P a) where
    pub scan-All :
        (vs : List Json) (seen : Dict Descriptor) (found : List Artifact × Dict Descriptor)
        → scan h disk vs seen ≡ ok found
        → All P found.0
    unfolding scan
    scan-All [] seen found e =
        subst (λ (x : List Artifact × Dict Descriptor). All P x.0) {x = ([], seen)} {y = found}
          (cc e) tt
    scan-All (v ∷ vs) seen found e =
        let (a, one, e1) = bind_ok (artifact_of h disk v) _ e in
        let (u, new, e2) =
          bind_ok (ensure (not (has_key a.own.digest seen)) (codes "duplicate OCI manifest digest"))
            _ e1 in
        let (rest, others, e3) = bind_ok (scan h disk vs (insert a.own.digest a.own seen)) _ e2 in
        subst (λ (x : List Artifact × Dict Descriptor). All P x.0) {x = (a ∷ rest.0, rest.1)}
          {y = found} (cc e3)
          (made v a one, scan-All vs (insert a.own.digest a.own seen) rest others)

  -- The pass over the subjects sets the status alone.
  module _ (kept : (a : Artifact) (s : Status) → P a → P (record a { status = s })) where
    compared-All :
        (a b : Artifact) (s : Descriptor) (o : Option Descriptor)
        → compared a s o ≡ ok b
        → P a
        → P b
    compared-All a b s none e p =
        subst P {x = record a { status = unresolved }} {y = b} (cc e) (kept a unresolved p)
    compared-All a b s (some t) e p =
        subst P {x = record a { status = local_association }} {y = b} (ground arith)
          (kept a local_association p)

    rated-All :
        (seen : Dict Descriptor) (a b : Artifact) (o : Option Descriptor)
        → rated seen a o ≡ ok b
        → P a
        → P b
    rated-All seen a b none e p =
        subst P {x = record a { status = no_subject }} {y = b} (cc e) (kept a no_subject p)
    rated-All seen a b (some s) e p = compared-All a b s (lookup s.digest seen) e p

    pub each_rate-All :
        (seen : Dict Descriptor) (xs ys : List Artifact)
        → each (rate seen) xs ≡ ok ys
        → All P xs
        → All P ys
    unfolding each rate
    each_rate-All seen xs [] e p = tt
    each_rate-All seen [] (y ∷ ys) e p = absurd (cc e)
    each_rate-All seen (x ∷ xs) (y ∷ ys) e p =
        let (b, one, e1) = bind_ok (rated seen x x.subject) _ e in
        let (bs, others, e2) = bind_ok (each (rate seen) xs) _ e1 in
        subst (All P) {x = b ∷ bs} {y = y ∷ ys} (cc e2)
          (rated-All seen x b x.subject one p.0, each_rate-All seen xs bs others p.1)
