-- ===== src/Oci/Cycles.antt =====
-- The `while` of the cycle check of tools/oci_inspect.py ends, and tells the chains of subjects
-- that go round from those that end.
use rebekah.Prelude.{
  ℕ, zero, suc, ◌+◌, ◌<◌, ◌≤◌, ◌≡◌, refl, ap, sym, ◌∙◌, Bool, true, false, none, some, List, [],
  ◌∷◌, arith, ◌⊎◌, inl, inr, All, Bool-cases, Option-cases, is_some,
}
use mathlib.Core.Path.{subst}
use rebekah.Prelude.Text.{Text, codes, text_eq, text_eq_iff, is_member}
use rebekah.Prelude.Dict.{Dict, lookup}
use rebekah.Prelude.Exec.{ok, err}
use rebekah.Oci.Refusal.{Refusal, refused, Checked}
use rebekah.Oci.Inspect.{Artifact, target_of, walk}

-- How many of the index's keys are not visited.
abbrev fresh : Bool → ℕ
fresh true = 0
fresh false = 1

abbrev pub remaining : List Text → Dict Artifact → ℕ
remaining visited [] = 0
remaining visited ((k, b) ∷ d) = fresh (is_member k visited) + remaining visited d

remaining-cons :
    (k : Text) (visited : List Text) (d : Dict Artifact)
    → remaining (k ∷ visited) d ≤ remaining visited d
remaining-cons k visited [] = omega arith
remaining-cons k visited ((j, b) ∷ d) = ground (arith, remaining-cons k visited d)

remaining_lt :
    (k : Text) (visited : List Text) (d : Dict Artifact) (b : Artifact)
    → lookup k d ≡ some b
    → is_member k visited ≡ false
    → remaining (k ∷ visited) d < remaining visited d
unfolding lookup
remaining_lt k visited [] b e m = cc
remaining_lt k visited ((j, c) ∷ d) b e m = ground (
  arith,
  remaining-cons k visited d,
  remaining_lt k visited d b,
  text_eq_iff j k,
  text_eq_iff k j,
)

abbrev pub cyclic : Refusal
cyclic = refused (codes "cyclic OCI subject graph")

module _ (index : Dict Artifact) where
  -- An artifact that the index holds under its own digest.
  abbrev pub Known : Artifact → Type 0
  Known a = lookup a.own.digest index ≡ some a

  -- The artifact that `a` is verified to refer to.
  abbrev pub Goes : Artifact → Artifact → Type 0
  Goes a b = (t : Text) × (target_of a ≡ some t) × (lookup t index ≡ some b)

  -- A chain of one such reference or more.
  pub data Chain (a : Artifact) : Artifact → Type 0 where
    one : {b : Artifact} → Goes a b → Chain a b
    longer : {b c : Artifact} → Chain a b → Goes b c → Chain a c

  -- A chain that comes to an artifact that refers to none.
  pub data Ends : Artifact → Type 0 where
    stops : (a : Artifact) → target_of a ≡ none → Ends a
    goes : (a b : Artifact) → Goes a b → Ends b → Ends a

  Goes-unique : (a b c : Artifact) → Goes a b → Goes a c → b ≡ c
  Goes-unique a b c (s, e, f) (t, e', f') =
      let same : some s ≡ some t = sym e ∙ e' in
      let found : lookup s index ≡ lookup t index = ap (λ o. lookup o index) (cc same) in
      cc (f, f', found)

  Chain-head : {a c : Artifact} → Chain a c → (b : Artifact) × Goes a b × ((b ≡ c) ⊎ Chain b c)
  Chain-head (one {b} g) = (b, g, inl refl)
  Chain-head (longer {b} {c} p g) =
      let (d, first, rest) = Chain-head p in
      (
        d,
        first,
        inr (elim rest [ inl e ↦ one (subst (λ x. Goes x c) (sym e) g) | inr q ↦ longer q g ]),
      )

  Chain-around : (a b c : Artifact) → Goes a b → c ≡ b → (c ≡ a) ⊎ Chain c a → Chain b b
  Chain-around a b c g e (inl back) = one (subst (λ x. Goes x b) (sym (sym e ∙ back)) g)
  Chain-around a b c g e (inr p) = subst (λ x. Chain x b) e (longer p g)

  -- A chain that ends does not go round.
  pub Ends-acyclic : (a : Artifact) → Ends a → Chain a a → ⊥
  Ends-acyclic a (stops _ e) p = let (b, g, rest) = Chain-head p in cc (e, g.1)
  Ends-acyclic a (goes _ b g h) p =
      let (c, g', rest) = Chain-head p in
      Ends-acyclic b h (Chain-around a b c g (Goes-unique a c b g' g) rest)

  -- Each key of the index is its artifact's digest, and what an artifact of the index is verified
  -- to refer to is there.
  pub record IsIndex : Type 0 where
    pub keyed : (k : Text) (b : Artifact) → lookup k index ≡ some b → b.own.digest ≡ k
    pub resolved :
        (a : Artifact) (t : Text) → Known a → target_of a ≡ some t → is_some (lookup t index) ≡ true

  -- What a visited digest stands for: an artifact from which a chain leads to the current one.
  abbrev Passed : Artifact → Text → Type 0
  Passed a d = (c : Artifact) × (c.own.digest ≡ d) × Known c × Chain c a

  -- What the loop finds out: the chain ends, or it leads to one that goes round.
  abbrev pub Verdict : Artifact → Checked (Unit {0}) → Type 0
  Verdict a r = ((r ≡ ok tt) × Ends a) ⊎ ((r ≡ err cyclic) × (c : Artifact) × Known c × Chain c c)

  passed_member :
      (a : Artifact) (visited : List Text)
      → Known a
      → All (Passed a) visited
      → is_member a.own.digest visited ≡ true
      → Chain a a
  passed_member a [] known p m = cc
  passed_member a (d ∷ ds) known p m = elim (Bool-cases (text_eq d a.own.digest)) [
    | inl e ↦
        let (c, same, known', chain) = p.0 in
        let there : lookup c.own.digest index ≡ lookup a.own.digest index =
          ap (λ k. lookup k index) (same ∙ (text_eq_iff d a.own.digest).0 e) in
        let equal : some c ≡ some a = sym known' ∙ there ∙ known in
        subst (λ x. Chain x a) (cc equal) chain
    | inr e ↦ passed_member a ds known p.1 (ground arith)
  ]

  passed_on :
      (a b : Artifact) (visited : List Text)
      → Goes a b
      → All (Passed a) visited
      → All (Passed b) visited
  passed_on a b [] g p = tt
  passed_on a b (d ∷ ds) g p =
      let (c, same, known, chain) = p.0 in
      ((c, same, known, longer chain g), passed_on a b ds g p.1)

  Verdict-goes : (a b : Artifact) (r : Checked (Unit {0})) → Goes a b → Verdict b r → Verdict a r
  Verdict-goes a b r g (inl v) = inl (v.0, goes a b g v.1)
  Verdict-goes a b r g (inr v) = inr v

  module _ (valid : IsIndex) where
    -- With fuel for every key that is left, the loop ends with a verdict.
    pub walk-Verdict :
        (fuel : ℕ) (visited : List Text) (a : Artifact)
        → Known a
        → All (Passed a) visited
        → remaining visited index < fuel
        → Verdict a (walk index fuel visited a)
    unfolding walk
    walk-Verdict zero visited a known p enough = absurd (omega arith)
    walk-Verdict (suc fuel) visited a known p enough = elim (Option-cases (target_of a)) [
      | inl e ↦ rw e (inl (refl, stops a e))
      | inr (t, e) ↦ elim (Bool-cases (is_member a.own.digest visited)) [
        | inl m ↦ rw (e, m) (inr (refl, a, known, passed_member a visited known p m))
        | inr m ↦ elim (Option-cases (lookup t index)) [
          | inl f ↦ cc (valid.resolved a t known e, f)
          | inr (b, f) ↦
              rw (e, m, f)
                (Verdict-goes a b _ (t, e, f)
                  (walk-Verdict fuel (a.own.digest ∷ visited) b
                    (cc (f, ap (λ k. lookup k index) (valid.keyed t b f)))
                    ((a, refl, known, one (t, e, f)), passed_on a b visited (t, e, f) p)
                    (omega (arith, remaining_lt a.own.digest visited index a known m))))
        ]
      ]
    ]
