-- ===== src/Oci/Referrers.antt =====
-- The referrers that `inspect` of tools/oci_inspect.py appends, against their description.
use rebekah.Prelude.{
  ◌≡◌, refl, Bool, false, Option, none, some, List, [], ◌∷◌, ◌++◌, map, All, Bool-cases, inl, inr,
  ◌∙◌, sym, ap, append_assoc, append-nil, if◌then◌else◌,
}
use mathlib.Core.Path.{subst}
use rebekah.Prelude.Text.{Text, text_eq}
use rebekah.Prelude.Sort.{sorted}
use rebekah.Prelude.Exec.{ok}
use rebekah.Oci.Disk.{Host, Disk}
use rebekah.Oci.Inspect.{
  Artifact, append_referrer, refer_to, target_of, link, link_all, sort_referrers, inspect,
}
use rebekah.Oci.Each.{artifact_of-blank, inspect-Passed, scan-All, each_rate-All}

-- The digests of those that are verified to refer to a digest, in the order of the index.
abbrev names_target : Option Text → Text → Bool
names_target none digest = false
names_target (some t) digest = text_eq digest t

abbrev pub referring : Text → List Artifact → List Text
referring digest [] = []
referring digest (a ∷ rest) =
    if names_target (target_of a) digest
    then a.own.digest ∷ referring digest rest
    else referring digest rest

-- One artifact after another gets what the loop appends to it.
abbrev gains : List Artifact → Artifact → Artifact
gains rest b = record b { referrers = b.referrers ++ referring b.own.digest rest }

abbrev gain_one : Option Text → Text → Artifact → Artifact
gain_one o digest b =
    if names_target o b.own.digest then record b { referrers = b.referrers ++ (digest ∷ []) } else b

refer_to-map :
    (o : Option Text) (digest : Text) (xs : List Artifact)
    → refer_to o digest xs ≡ map (gain_one o digest) xs
unfolding append_referrer
refer_to-map none digest [] = refl
refer_to-map none digest (x ∷ xs) = ap (λ ys. x ∷ ys) (refer_to-map none digest xs)
refer_to-map (some t) digest [] = refl
refer_to-map (some t) digest (x ∷ xs) =
    ap (λ ys. gain_one (some t) digest x ∷ ys) (refer_to-map (some t) digest xs)

map_id : (f : Artifact → Artifact) (xs : List Artifact) → ((b : Artifact) → f b ≡ b) → map f xs ≡ xs
map_id f [] h = refl
map_id f (x ∷ xs) h = cc (h x, map_id f xs h)

map_twice :
    (f g k : Artifact → Artifact) (xs : List Artifact)
    → ((b : Artifact) → f (g b) ≡ k b)
    → map f (map g xs) ≡ map k xs
map_twice f g k [] h = refl
map_twice f g k (x ∷ xs) h = cc (h x, map_twice f g k xs h)

gain_step :
    (a : Artifact) (rest : List Artifact) (b : Artifact)
    → gains rest (gain_one (target_of a) a.own.digest b) ≡ gains (a ∷ rest) b
gain_step a rest b = elim (Bool-cases (names_target (target_of a) b.own.digest)) [
  | inl e ↦ rw e (
      ap (λ rs. record b { referrers = rs })
        (append_assoc b.referrers (a.own.digest ∷ []) (referring b.own.digest rest)))
  | inr e ↦ rw e refl
]

link-map : (rest xs : List Artifact) → link rest xs ≡ map (gains rest) xs
unfolding link
link-map [] xs =
    sym
      (map_id (gains []) xs (λ b. ap (λ rs. record b { referrers = rs }) (append-nil b.referrers)))
link-map (a ∷ rest) xs =
    link-map rest (refer_to (target_of a) a.own.digest xs)
    ∙ ap (map (gains rest)) (refer_to-map (target_of a) a.own.digest xs)
    ∙ map_twice (gains rest) (gain_one (target_of a) a.own.digest) (gains (a ∷ rest)) xs
        (gain_step a rest)

abbrev listing : List Artifact → Artifact → Artifact
listing all b = record b { referrers = sorted (b.referrers ++ referring b.own.digest all) }

link_all-map : (xs : List Artifact) → link_all xs ≡ map (listing xs) xs
unfolding link_all
link_all-map xs =
    ap (map sort_referrers) (link-map xs xs)
    ∙ map_twice sort_referrers (gains xs) (listing xs) xs (λ b. refl)

referring-listing :
    (digest : Text) (all xs : List Artifact)
    → referring digest (map (listing all) xs) ≡ referring digest xs
referring-listing digest all [] = refl
referring-listing digest all (x ∷ xs) = cc (referring-listing digest all xs)

abbrev Blank : Artifact → Type 0
Blank a = a.referrers ≡ []

-- Where an inspection succeeds, each artifact that it reports lists as its referrers, sorted, the
-- digests of exactly those artifacts that are verified to refer to it.
pub inspect-referrers :
    (h : Host) (disk : Disk) (artifacts : List Artifact)
    → inspect h disk ≡ ok artifacts
    → All (λ a. a.referrers ≡ sorted (referring a.own.digest artifacts)) artifacts
inspect-referrers h disk artifacts e =
    let p = inspect-Passed h disk artifacts e in
    let scanned =
      scan-All Blank h disk (artifact_of-blank h disk) p.manifests [] p.found p.scanned in
    let blank = each_rate-All Blank (λ a s r. r) p.found.1 p.found.0 p.rated_ones p.rates scanned in
    let same : map (listing p.rated_ones) p.rated_ones ≡ artifacts =
      sym (link_all-map p.rated_ones) ∙ p.result in
    subst (λ xs. All (λ a. a.referrers ≡ sorted (referring a.own.digest xs)) xs) same
      (all_listed p.rated_ones p.rated_ones blank)
  where
    all_listed :
        (all xs : List Artifact)
        → All Blank xs
        → All
            (λ b. b.referrers ≡ sorted (referring b.own.digest (map (listing all) all)))
            (map (listing all) xs)
    all_listed all [] r = tt
    all_listed all (x ∷ xs) r =
        (ap sorted (rw (r.0) (sym (referring-listing x.own.digest all all))), all_listed all xs r.1)
