-- ===== src/Oci/Acyclic.antt =====
-- The passes of `inspect` of tools/oci_inspect.py come to the check for cycles, which
-- decides whether a chain of subjects goes round.
use rebekah.Prelude.{
  ℕ, suc, ◌≡◌, refl, sym, true, some, List, [], ◌∷◌, arith, ◌⊎◌, inl, inr, All, length, is_some,
}
use mathlib.Core.Path.{subst}
use rebekah.Prelude.Text.{Text, codes, is_member}
use rebekah.Prelude.Dict.{Dict, lookup, lookup-nil}
use rebekah.Prelude.Exec.{ok, err}
use rebekah.Json.{Json}
use rebekah.Oci.Refusal.{refused, Checked, ◌>>=◌, ◌>>◌, each}
use rebekah.Oci.Disk.{Host, Disk, Descriptor}
use rebekah.Oci.Inspect.{
  Artifact, target_of, walk, by_digest, refuse_cycles, link_all, rate, scan, inspect,
}
use rebekah.Oci.Cycles.{Known, Chain, Ends, IsIndex, Verdict, Ends-acyclic, walk-Verdict, cyclic}
use rebekah.Oci.Index.{
  digests, Distinct, Resolved, remaining-by_digest, by_digest-Known, by_digest-IsIndex,
}
use rebekah.Oci.Each.{inspect-Passed}
use rebekah.Oci.Passes.{IsScanned, scan-IsScanned, each-rate, link_all-Kept}

-- An artifact on a chain of subjects that comes back to it.
abbrev pub GoesRound : List Artifact → Artifact → Type 0
GoesRound artifacts a = Chain (by_digest artifacts) a a

module _ (index : Dict Artifact) (fuel : ℕ) where
  -- The loop over the artifacts that remain.
  each-walk :
      (rest : List Artifact)
      → All (λ a. Verdict index a (walk index fuel [] a)) rest
      → ((each (walk index fuel []) rest >> ok tt ≡ ok tt) × All (Ends index) rest)
        ⊎ ((each (walk index fuel []) rest >> ok tt ≡ err cyclic)
            × (c : Artifact) × Known index c
            × Chain index c c)
  unfolding each
  each-walk [] h = inl (refl, tt)
  each-walk (a ∷ rest) h = elim h.0 [
    | inl v ↦ elim (each-walk rest h.1) [
      | inl w ↦ inl (rw v.0 (through (each (walk index fuel []) rest) w.0), (v.1, w.1))
      | inr w ↦ inr (rw v.0 (stopped (each (walk index fuel []) rest) w.0), w.1, w.2, w.3)
    ]
    | inr v ↦ inr (rw v.0 refl, v.1, v.2, v.3)
  ]
    where
      through :
          (r : Checked (List (Unit {0})))
          → (r >> ok tt) ≡ ok tt
          → ((r >>= λ ys. ok (tt ∷ ys)) >> ok tt) ≡ ok tt
      through (ok us) e = refl
      through (err x) e = cc

      stopped :
          (r : Checked (List (Unit {0})))
          → (r >> ok tt) ≡ err cyclic
          → ((r >>= λ ys. ok (tt ∷ ys)) >> ok tt) ≡ err cyclic
      stopped (ok us) e = cc
      stopped (err x) e = e

module _ (artifacts : List Artifact) where
  all_verdicts :
      (valid : IsIndex (by_digest artifacts)) (rest : List Artifact)
      → All (Known (by_digest artifacts)) rest
      → All
          (λ a.
            Verdict
              (by_digest artifacts)
              a
              (walk (by_digest artifacts) (suc (length artifacts)) [] a))
          rest
  all_verdicts valid [] known = tt
  all_verdicts valid (a ∷ rest) known = (
    walk-Verdict (by_digest artifacts) valid (suc (length artifacts)) [] a known.0 tt
        (remaining-by_digest artifacts),
    all_verdicts valid rest known.1,
  )

  -- With distinct digests, and local subjects among them, the check ends: it passes where every
  -- chain of subjects ends, and refuses where one goes round.
  pub refuse_cycles_decides :
      Distinct (digests artifacts)
      → All (Resolved (digests artifacts)) artifacts
      → ((refuse_cycles artifacts ≡ ok tt) × All (Ends (by_digest artifacts)) artifacts)
        ⊎ ((refuse_cycles artifacts ≡ err (refused (codes "cyclic OCI subject graph")))
            × (c : Artifact) × Known (by_digest artifacts) c
            × GoesRound artifacts c)
  unfolding refuse_cycles
  refuse_cycles_decides distinct resolved =
      each-walk (by_digest artifacts) (suc (length artifacts)) artifacts (
        all_verdicts (by_digest-IsIndex artifacts distinct resolved) artifacts
          (by_digest-Known artifacts distinct))

-- What a successful assessment went through.
module _ (h : Host) (disk : Disk) where
  -- The digests of what comes to the check are distinct, and the local subjects are among them.
  pub prepared :
      (manifests : List Json) (found : List Artifact × Dict Descriptor) (artifacts : List Artifact)
      → scan h disk manifests [] ≡ ok found
      → each (rate found.1) found.0 ≡ ok artifacts
      → Distinct (digests (link_all artifacts))
        × All (Resolved (digests (link_all artifacts))) (link_all artifacts)
  prepared manifests found artifacts e f =
      let scanned = scan-IsScanned h disk manifests [] found e in
      let (same, found_all) = each-rate found.1 found.0 artifacts f in
      let kept =
        link_all-Kept (digests found.0) artifacts (same, among scanned artifacts found_all) in
      (
        subst Distinct (sym kept.0) scanned.distinct,
        subst (λ ks. All (Resolved ks) (link_all artifacts)) (sym kept.0) kept.1,
      )
    where
      listed_key :
          IsScanned [] found.1 found.0
          → (t : Text) → is_some (lookup t found.1) ≡ true
          → is_member t (digests found.0) ≡ true
      listed_key s t e = ground (arith, s.keys t e, lookup-nil {V = Descriptor} t)

      among :
          IsScanned [] found.1 found.0
          → (xs : List Artifact)
          → All (λ b. (t : Text) → target_of b ≡ some t → is_some (lookup t found.1) ≡ true) xs
          → All (Resolved (digests found.0)) xs
      among s [] all = tt
      among s (x ∷ xs) all = (λ t e. listed_key s t (all.0 t e), among s xs all.1)

  -- Where an inspection succeeds, no chain of verified subjects comes back to an artifact that it
  -- starts from, and no digest is listed twice.
  pub inspect-IsAcyclic :
      (artifacts : List Artifact)
      → inspect h disk ≡ ok artifacts
      → All (λ a. ¬ GoesRound artifacts a) artifacts × Distinct (digests artifacts)
  inspect-IsAcyclic artifacts e =
      let p = inspect-Passed h disk artifacts e in
      let (distinct, resolved) = prepared p.manifests p.found p.rated_ones p.scanned p.rates in
      subst (λ xs. All (λ a. ¬ GoesRound xs a) xs × Distinct (digests xs)) p.result
        (
          none_round (link_all p.rated_ones)
              (refuse_cycles_decides (link_all p.rated_ones) distinct resolved) p.acyclic,
          distinct,
        )
    where
      ends_all :
          (index : Dict Artifact) (xs : List Artifact)
          → All (Ends index) xs
          → All (λ a. ¬ Chain index a a) xs
      ends_all index [] all = tt
      ends_all index (x ∷ xs) all = (Ends-acyclic index x all.0, ends_all index xs all.1)

      none_round :
          (xs : List Artifact)
          → ((refuse_cycles xs ≡ ok tt) × All (Ends (by_digest xs)) xs)
            ⊎ ((refuse_cycles xs ≡ err cyclic)
                × (c : Artifact) × Known (by_digest xs) c
                × GoesRound xs c)
          → {u : Unit {0}} → refuse_cycles xs ≡ ok u
          → All (λ a. ¬ GoesRound xs a) xs
      none_round xs (inl v) f = ends_all (by_digest xs) xs v.1
      none_round xs (inr v) f = absurd (cc (v.0, f))
