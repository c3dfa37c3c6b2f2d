-- ===== src/Views/Genuine.antt =====
-- The agent runs that nix/gateway.py's `_serve_v1_changeset` links to a change set are named by
-- WeftMark, each once: no link is made up.
use rebekah.Prelude.{
  ◌⊎◌, ◌≡◌, refl, true, false, not, ◌&&◌, ◌||◌, none, some, List, [], ◌∷◌, ◌++◌, map, All,
  All-append, arith, if◌then◌else◌, sym, Bool-cases, inl, inr,
}
use mathlib.Core.List.{map-append}
use mathlib.Core.Path.{subst}
use rebekah.Prelude.Text.{Text, codes, starts_with, is_member, text_eq, text_eq_iff}
use rebekah.Prelude.Dict.{Dict}
use rebekah.Prelude.Exec.{ok}
use rebekah.Json.{
  Json, Fields, null, str, boolean, int, float, arr, obj, entries, as_dict, get, get_of, or_dict,
}
use rebekah.Views.Kanban.{bind_returns, values}
use rebekah.Views.ChangeSet.{
  Refs, evidence_ref, claim_ref, candidates, keep, keep_all, evidence_refs, claim_refs, system_refs,
}

-- No text twice.
abbrev pub Distinct : List Text → Type 0
Distinct [] = Unit
Distinct (s ∷ ss) = (is_member s ss ≡ false) × Distinct ss

is_member-append :
    (s : Text) (xs : List Text) (t : Text)
    → is_member s (xs ++ t ∷ []) ≡ (is_member s xs || text_eq t s)
is_member-append s [] t = ground arith
is_member-append s (x ∷ xs) t = ground (arith, is_member-append s xs t)

Distinct-append :
    (xs : List Text) (t : Text) → is_member t xs ≡ false → Distinct xs → Distinct (xs ++ t ∷ [])
Distinct-append [] t h d = (refl, tt)
Distinct-append (x ∷ xs) t h d = (
  ground (arith, is_member-append x xs t, text_eq_iff x t, text_eq_iff t x),
  Distinct-append xs t (ground arith) d.1,
)

-- The id of a link.
abbrev pub link_id : Json → Json
link_id v = elim (as_dict v) [ none ↦ null | some d ↦ get d (codes "id") ]

claim_ref-named : (c : Dict Json) (s : Text) → link_id (claim_ref c s) ≡ str s
unfolding get text_eq
claim_ref-named c s = refl

evidence_ref-named : (r : Dict Json) (s : Text) → link_id (evidence_ref r s) ≡ str s
unfolding get text_eq
evidence_ref-named r s = refl

-- A text among some values.
pub data IsIn (s : Text) : List Json → Type 0 where
  first : (vs : List Json) → IsIn s (str s ∷ vs)
  later : (v : Json) (vs : List Json) → IsIn s vs → IsIn s (v ∷ vs)

-- A text that a piece of evidence has as the id of its producer, or among its artifacts.
pub data IsEvidence (s : Text) : List Json → Type 0 where
  producer :
      (fs : Fields) (vs : List Json)
      → get_of (or_dict (get (entries fs) (codes "producer"))) (codes "id") ≡ ok (str s)
      → IsEvidence s (obj fs ∷ vs)
  artifact :
      (fs : Fields) (found vs : List Json)
      → values (obj fs) (codes "artifacts") ≡ ok found
      → IsIn s found
      → IsEvidence s (obj fs ∷ vs)
  older : (v : Json) (vs : List Json) → IsEvidence s vs → IsEvidence s (v ∷ vs)

-- A text that an active claim has as its session.
pub data IsSession (s : Text) : List Json → Type 0 where
  session :
      (fs : Fields) (vs : List Json)
      → get (entries fs) (codes "session") ≡ str s
      → IsSession s (obj fs ∷ vs)
  other : (v : Json) (vs : List Json) → IsSession s vs → IsSession s (v ∷ vs)

abbrev pub Cited : List Json → List Json → Text → Type 0
Cited evidence claims s = IsEvidence s evidence ⊎ IsSession s claims

-- The links are those of the texts seen, which all name the system, each once, and have a property.
pub record IsGenuine (prefix : Text) (P : Text → Type 0) (seen : List Text) (refs : List Json)
    : Type 0 where
  pub listed : map link_id refs ≡ map str seen
  pub prefixed : All (λ s. starts_with s prefix ≡ true) seen
  pub distinct : Distinct seen
  pub cited : All P seen

in_candidates :
    (s : Text) (fs : Fields) (v : Json) (vs rest : List Json)
    → get_of (or_dict (get (entries fs) (codes "producer"))) (codes "id") ≡ ok v
    → values (obj fs) (codes "artifacts") ≡ ok vs
    → (all : List Json) → v ∷ vs ≡ all
    → IsIn s all
    → IsEvidence s (obj fs ∷ rest)
in_candidates s fs v vs rest ep ea _ e (first ws) = producer fs rest (cc (ep, e))
in_candidates s fs v vs rest ep ea _ e (later w ws i) =
    artifact fs vs rest ea (subst (IsIn s) {x = ws} {y = vs} (cc e) i)

candidates-IsEvidence :
    (s : Text) (fs : Fields) (found rest : List Json)
    → candidates (obj fs) (entries fs) ≡ ok found
    → IsIn s found
    → IsEvidence s (obj fs ∷ rest)
candidates-IsEvidence s fs found rest e i =
    let (v, ep, e1) =
      bind_returns (get_of (or_dict (get (entries fs) (codes "producer"))) (codes "id")) _ e in
    let (vs, ea, e2) = bind_returns (values (obj fs) (codes "artifacts")) _ e1 in
    in_candidates s fs v vs rest ep ea found (cc e2) i

module _ (prefix : Text) (P : Text → Type 0) where
  abbrev Good : Refs → Type 0
  Good (seen, refs) = IsGenuine prefix P seen refs

  add-Good :
      (make : Text → Json) (s : Text) (seen : List Text) (refs : List Json)
      → link_id (make s) ≡ str s
      → starts_with s prefix ≡ true
      → is_member s seen ≡ false
      → P s
      → IsGenuine prefix P seen refs
      → IsGenuine prefix P (seen ++ s ∷ []) (refs ++ make s ∷ [])
  add-Good make s seen refs named p new q g = record {
    listed = rw (map-append, map-append) (cc (g.listed, named));
    prefixed = All-append (λ t. starts_with t prefix ≡ true) seen (s ∷ []) g.prefixed (p, tt);
    distinct = Distinct-append seen s new g.distinct;
    cited = All-append P seen (s ∷ []) g.cited (q, tt);
  }

  keep-Good :
      (make : Text → Json) (v : Json) (r : Refs)
      → ((s : Text) → link_id (make s) ≡ str s)
      → ((s : Text) → v ≡ str s → P s)
      → Good r
      → Good (keep prefix make v r)
  keep-Good make null r named holds g = g
  keep-Good make (boolean b) r named holds g = g
  keep-Good make (int z) r named holds g = g
  keep-Good make (float z) r named holds g = g
  keep-Good make (arr z) r named holds g = g
  keep-Good make (obj z) r named holds g = g
  keep-Good make (str s) (seen, refs) named holds g =
      elim (Bool-cases (starts_with s prefix && not (is_member s seen))) [
        | inl e ↦
            subst (λ b. Good (if b then (seen ++ s ∷ [], refs ++ make s ∷ []) else (seen, refs)))
              (sym e)
              (add-Good make s seen refs (named s) (ground arith) (ground arith) (holds s refl) g)
        | inr e ↦
            subst (λ b. Good (if b then (seen ++ s ∷ [], refs ++ make s ∷ []) else (seen, refs)))
              (sym e) g
      ]

  keep_all-Good :
      (make : Text → Json) (vs : List Json) (r : Refs)
      → ((s : Text) → link_id (make s) ≡ str s)
      → ((s : Text) → IsIn s vs → P s)
      → Good r
      → Good (keep_all prefix make vs r)
  keep_all-Good make [] r named holds g = g
  keep_all-Good make (v ∷ vs) r named holds g =
      keep_all-Good make vs (keep prefix make v r) named (λ s i. holds s (later v vs i))
        (keep-Good make v r named (λ s e. holds s (subst (λ x. IsIn s (x ∷ vs)) (sym e) (first vs)))
          g)

  claim_refs-Good :
      (claims : List Json) (r : Refs)
      → ((s : Text) → IsSession s claims → P s)
      → Good r
      → Good (claim_refs prefix claims r)
  unfolding claim_refs
  claim_refs-Good [] r holds g = g
  claim_refs-Good (obj fs ∷ vs) r holds g =
      claim_refs-Good vs _ (λ s i. holds s (other (obj fs) vs i))
        (keep-Good (claim_ref (entries fs)) (get (entries fs) (codes "session")) r
          (claim_ref-named (entries fs)) (λ s e. holds s (session fs vs e)) g)
  claim_refs-Good (null ∷ vs) r holds g = claim_refs-Good vs r (λ s i. holds s (other null vs i)) g
  claim_refs-Good (boolean b ∷ vs) r holds g =
      claim_refs-Good vs r (λ s i. holds s (other (boolean b) vs i)) g
  claim_refs-Good (int z ∷ vs) r holds g =
      claim_refs-Good vs r (λ s i. holds s (other (int z) vs i)) g
  claim_refs-Good (float z ∷ vs) r holds g =
      claim_refs-Good vs r (λ s i. holds s (other (float z) vs i)) g
  claim_refs-Good (str z ∷ vs) r holds g =
      claim_refs-Good vs r (λ s i. holds s (other (str z) vs i)) g
  claim_refs-Good (arr z ∷ vs) r holds g =
      claim_refs-Good vs r (λ s i. holds s (other (arr z) vs i)) g

  evidence_refs-Good :
      (evidence : List Json) (r r' : Refs)
      → ((s : Text) → IsEvidence s evidence → P s)
      → Good r
      → evidence_refs prefix evidence r ≡ ok r'
      → Good r'
  unfolding evidence_refs
  evidence_refs-Good [] r r' holds g e = let q : r ≡ r' = cc in subst Good q g
  evidence_refs-Good (obj fs ∷ vs) r r' holds g e =
      let (found, ef, rest) =
        bind_returns (candidates (obj fs) (entries fs))
          (λ found. evidence_refs prefix vs (keep_all prefix (evidence_ref (entries fs)) found r))
          e in
      evidence_refs-Good vs (keep_all prefix (evidence_ref (entries fs)) found r) r'
        (λ s i. holds s (older (obj fs) vs i))
        (keep_all-Good (evidence_ref (entries fs)) found r (evidence_ref-named (entries fs))
          (λ s i. holds s (candidates-IsEvidence s fs found vs ef i)) g)
        rest
  evidence_refs-Good (null ∷ vs) r r' holds g e =
      evidence_refs-Good vs r r' (λ s i. holds s (older null vs i)) g e
  evidence_refs-Good (boolean b ∷ vs) r r' holds g e =
      evidence_refs-Good vs r r' (λ s i. holds s (older (boolean b) vs i)) g e
  evidence_refs-Good (int z ∷ vs) r r' holds g e =
      evidence_refs-Good vs r r' (λ s i. holds s (older (int z) vs i)) g e
  evidence_refs-Good (float z ∷ vs) r r' holds g e =
      evidence_refs-Good vs r r' (λ s i. holds s (older (float z) vs i)) g e
  evidence_refs-Good (str z ∷ vs) r r' holds g e =
      evidence_refs-Good vs r r' (λ s i. holds s (older (str z) vs i)) g e
  evidence_refs-Good (arr z ∷ vs) r r' holds g e =
      evidence_refs-Good vs r r' (λ s i. holds s (older (arr z) vs i)) g e

-- Where the references of a system are collected without a raise, their ids are texts that start with
-- the system's name and a colon, no id is listed twice, and none is made up: each is the id of the
-- producer or an artifact of a piece of evidence, or the session of an active claim.
pub system_refs-IsGenuine :
    (system : Text) (evidence claims refs : List Json)
    → system_refs system evidence claims ≡ ok refs
    → (seen : List Text) × IsGenuine (system ++ codes ":") (Cited evidence claims) seen refs
unfolding system_refs
system_refs-IsGenuine system evidence claims refs e =
    let (r, er, e') =
      bind_returns (evidence_refs (system ++ codes ":") evidence ([], []))
        (λ r. ok (claim_refs (system ++ codes ":") claims r).1) e in
    let P = Cited evidence claims in
    let g =
      claim_refs-Good (system ++ codes ":") P claims r (λ s i. inr i)
        (evidence_refs-Good (system ++ codes ":") P evidence ([], []) r (λ s i. inl i)
          record { listed = refl; prefixed = tt; distinct = tt; cited = tt } er) in
    let q : (claim_refs (system ++ codes ":") claims r).1 ≡ refs = cc in
    (_, subst (IsGenuine (system ++ codes ":") P (claim_refs (system ++ codes ":") claims r).0) q g)
