-- ===== src/Oci/Canonical.antt =====
-- `validate` of tools/oci_handoff.py says the same of a record and of what is read back of it.
use rebekah.Prelude.{◌≡◌, refl, sym, Bool, Option, none, some, List, [], ◌∷◌, map}
use rebekah.Prelude.Text.{Text}
use rebekah.Prelude.Dict.{lookup}
use rebekah.Json.{
  Json, null, boolean, int, float, str, arr, obj, Fields, Items, end, entries, elements,
}
use rebekah.Json.Canonical.{
  canonical, canonical_fields, canonical_value, lookup-canonical_fields, get-canonical_fields,
  elements-canonical_items, is_truthy-canonical,
}
use rebekah.Oci.Refusal.{each}
use rebekah.Oci.Handoff.{
  get_default, or_default, valid_digest, is_text, is_filled, is_commit, is_kind, valid_entry,
  valid_repo, valid_artifact, valid_evidence, valid_fields, validate,
}

get_default-canonical :
    (k : Text) (w : Json) (fs : Fields)
    → canonical w ≡ w
    → get_default (entries (canonical_fields fs)) k w ≡ canonical (get_default (entries fs) k w)
unfolding get_default
get_default-canonical k w fs e =
    rw (lookup-canonical_fields k fs) (by_value (lookup k (entries fs)))
  where
    by_value : (o : Option Json) → or_default w (canonical_value o) ≡ canonical (or_default w o)
    by_value none = sym e
    by_value (some v) = refl

-- A test of texts sees no difference.
text_test :
    (f : Json → Bool)
    → ((vs ws : Items) → f (arr vs) ≡ f (arr ws))
    → ((fs gs : Fields) → f (obj fs) ≡ f (obj gs))
    → (v : Json) → f (canonical v) ≡ f v
unfolding canonical
text_test f a o null = refl
text_test f a o (boolean b) = refl
text_test f a o (int n) = refl
text_test f a o (float t) = refl
text_test f a o (str s) = refl
text_test f a o (arr vs) = a _ vs
text_test f a o (obj fs) = o _ fs

is_text-canonical : (t : Text) (v : Json) → is_text t (canonical v) ≡ is_text t v
is_text-canonical t = text_test (is_text t) (λ vs ws. refl) (λ fs gs. refl)

is_filled-canonical : (v : Json) → is_filled (canonical v) ≡ is_filled v
is_filled-canonical = text_test is_filled (λ vs ws. refl) (λ fs gs. refl)

is_commit-canonical : (v : Json) → is_commit (canonical v) ≡ is_commit v
is_commit-canonical = text_test is_commit (λ vs ws. refl) (λ fs gs. refl)

is_kind-canonical : (v : Json) → is_kind (canonical v) ≡ is_kind v
is_kind-canonical = text_test is_kind (λ vs ws. refl) (λ fs gs. refl)

valid_digest-canonical : (v : Json) → valid_digest (canonical v) ≡ valid_digest v
unfolding valid_digest
valid_digest-canonical = text_test valid_digest (λ vs ws. refl) (λ fs gs. refl)

ruleset same = (
  get-canonical_fields, is_text-canonical, is_filled-canonical, is_commit-canonical,
  is_kind-canonical, valid_digest-canonical, is_truthy-canonical,
)

default_text :
    (k : Text) (fs : Fields)
    → get_default (entries (canonical_fields fs)) k (str [])
      ≡ canonical (get_default (entries fs) k (str []))
default_text k fs = get_default-canonical k (str []) fs (unfold canonical in refl)

default_dict :
    (k : Text) (fs : Fields)
    → get_default (entries (canonical_fields fs)) k (obj end)
      ≡ canonical (get_default (entries fs) k (obj end))
default_dict k fs = get_default-canonical k (obj end) fs (unfold canonical in refl)

valid_entry-canonical : (v : Json) → valid_entry (canonical v) ≡ valid_entry v
unfolding valid_entry canonical
valid_entry-canonical (obj fs) = simp (same, default_text)
valid_entry-canonical null = refl
valid_entry-canonical (boolean b) = refl
valid_entry-canonical (int n) = refl
valid_entry-canonical (float t) = refl
valid_entry-canonical (str s) = refl
valid_entry-canonical (arr vs) = refl

valid_repo-canonical : (v : Json) → valid_repo (canonical v) ≡ valid_repo v
unfolding valid_repo canonical
valid_repo-canonical (obj fs) = simp (same, default_text)
valid_repo-canonical null = refl
valid_repo-canonical (boolean b) = refl
valid_repo-canonical (int n) = refl
valid_repo-canonical (float t) = refl
valid_repo-canonical (str s) = refl
valid_repo-canonical (arr vs) = refl

valid_artifact-canonical : (v : Json) → valid_artifact (canonical v) ≡ valid_artifact v
unfolding valid_artifact canonical
valid_artifact-canonical (obj fs) = simp (same, default_text)
valid_artifact-canonical null = refl
valid_artifact-canonical (boolean b) = refl
valid_artifact-canonical (int n) = refl
valid_artifact-canonical (float t) = refl
valid_artifact-canonical (str s) = refl
valid_artifact-canonical (arr vs) = refl

each_entry-canonical : (vs : List Json) → each valid_entry (map canonical vs) ≡ each valid_entry vs
unfolding each
each_entry-canonical [] = refl
each_entry-canonical (v ∷ vs) = rw (valid_entry-canonical v, each_entry-canonical vs) refl

valid_evidence-canonical : (v : Json) → valid_evidence (canonical v) ≡ valid_evidence v
unfolding valid_evidence canonical
valid_evidence-canonical (arr vs) =
    rw (elements-canonical_items vs, each_entry-canonical (elements vs)) refl
valid_evidence-canonical null = refl
valid_evidence-canonical (boolean b) = refl
valid_evidence-canonical (int n) = refl
valid_evidence-canonical (float t) = refl
valid_evidence-canonical (str s) = refl
valid_evidence-canonical (obj fs) = refl

pub validate-canonical : (v : Json) → validate (canonical v) ≡ validate v
unfolding validate valid_fields canonical
validate-canonical (obj fs) =
    simp
      (same, default_dict, valid_repo-canonical, valid_artifact-canonical, valid_evidence-canonical)
validate-canonical null = refl
validate-canonical (boolean b) = refl
validate-canonical (int n) = refl
validate-canonical (float t) = refl
validate-canonical (str s) = refl
validate-canonical (arr vs) = refl
