-- ===== src/Oci/Verified.antt =====
-- Every artifact that `inspect` of tools/oci_inspect.py reports was verified.
use rebekah.Prelude.{◌≡◌, refl, Option, none, some, List, [], ◌∷◌, map, All, Bool-cases, inl, inr}
use mathlib.Core.Path.{subst}
use rebekah.Prelude.Text.{Text, text_eq}
use rebekah.Prelude.Exec.{ok}
use rebekah.Oci.Disk.{Host, Disk}
use rebekah.Oci.Inspect.{
  Artifact, append_referrer, refer_to, target_of, link, link_all, sort_referrers, inspect,
}
use rebekah.Oci.Each.{inspect-Passed, scan-All, each_rate-All}
use rebekah.Oci.Integrity.{AreVerified, artifact_of-AreVerified}

module _ (h : Host) (disk : Disk) where
  abbrev Good : Artifact → Type 0
  Good = AreVerified h disk

  -- The later passes change neither the descriptor nor the layers of an artifact.
  moved : (a b : Artifact) → b.own ≡ a.own → b.layers ≡ a.layers → Good a → Good b
  moved a b e f g = record { manifest = rw e g.manifest; blobs = rw f g.blobs }

  append_referrer-Good :
      (target digest : Text) (xs : List Artifact)
      → All Good xs
      → All Good (append_referrer target digest xs)
  unfolding append_referrer
  append_referrer-Good target digest [] g = tt
  append_referrer-Good target digest (a ∷ rest) g =
      elim (Bool-cases (text_eq a.own.digest target)) [
        | inl e ↦ rw e (moved a _ refl refl g.0, append_referrer-Good target digest rest g.1)
        | inr e ↦ rw e (g.0, append_referrer-Good target digest rest g.1)
      ]

  refer_to-Good :
      (o : Option Text) (digest : Text) (xs : List Artifact)
      → All Good xs
      → All Good (refer_to o digest xs)
  refer_to-Good none digest xs g = g
  refer_to-Good (some target) digest xs g = append_referrer-Good target digest xs g

  link-Good : (rest xs : List Artifact) → All Good xs → All Good (link rest xs)
  unfolding link
  link-Good [] xs g = g
  link-Good (a ∷ rest) xs g =
      link-Good rest (refer_to (target_of a) a.own.digest xs)
        (refer_to-Good (target_of a) a.own.digest xs g)

  sorted-Good : (xs : List Artifact) → All Good xs → All Good (map sort_referrers xs)
  sorted-Good [] g = tt
  sorted-Good (a ∷ rest) g = (moved a _ refl refl g.0, sorted-Good rest g.1)

  -- Where an inspection succeeds, of every artifact that it reports the manifest and all layers are
  -- regular files of the announced size below no symbolic link, within the limits of 4 and 128 MiB,
  -- whose bytes have the announced SHA-256.
  pub inspect-AreVerified :
      (artifacts : List Artifact)
      → inspect h disk ≡ ok artifacts
      → All (AreVerified h disk) artifacts
  unfolding link_all
  inspect-AreVerified artifacts e =
      let p = inspect-Passed h disk artifacts e in
      let scanned =
        scan-All Good h disk (artifact_of-AreVerified h disk) p.manifests [] p.found p.scanned in
      let passed =
        each_rate-All Good (λ a s. moved a _ refl refl) p.found.1 p.found.0 p.rated_ones p.rates
          scanned in
      subst (All Good) p.result
        (sorted-Good (link p.rated_ones p.rated_ones) (link-Good p.rated_ones p.rated_ones passed))
