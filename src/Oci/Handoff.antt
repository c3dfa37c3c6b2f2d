-- ===== src/Oci/Handoff.antt =====
-- `validate` and `valid_digest` of tools/oci_handoff.py: the record of a workspace handoff.
use rebekah.Prelude.{
  Bool, false, not, ◌&&◌, ◌||◌, ◌==◌, Option, none, some, [], ◌∷◌, length, drop, all,
}
use rebekah.Prelude.Text.{Text, codes, text_eq, is_empty, starts_with, is_member}
use rebekah.Prelude.Dict.{Dict, lookup}
use rebekah.Prelude.Exec.{ok, err}
use rebekah.Json.{Json, str, obj, end, entries, as_dict, as_list, get, is_truthy}
use rebekah.Regex.{is_hex}
use rebekah.Oci.Refusal.{no_attribute, Checked, ◌>>=◌, ◌>>◌, ensure, require, each}

-- `d.get(k, v)`
abbrev pub or_default : Json → Option Json → Json
or_default v none = v
or_default v (some w) = w

unfoldable pub get_default : Dict Json → Text → Json → Json
unfolding lookup
get_default d k v = or_default v (lookup k d)

unfoldable pub valid_digest : Json → Bool
unfolding starts_with
valid_digest (str s) = starts_with s (codes "sha256:") && length s == 71 && all is_hex (drop 7 s)
valid_digest _ = false

abbrev pub is_text : Text → Json → Bool
is_text t (str s) = text_eq s t
is_text t _ = false

abbrev pub is_filled : Json → Bool
is_filled (str s) = not (is_empty s)
is_filled _ = false

-- A commit of 40 or 64 lower-case hexadecimal digits.
abbrev pub is_commit : Json → Bool
is_commit (str s) = (length s == 40 || length s == 64) && all is_hex s
is_commit _ = false

abbrev pub is_kind : Json → Bool
is_kind (str s) =
    is_member s (codes "observation" ∷ codes "assertion" ∷ codes "test" ∷ codes "attestation" ∷ [])
is_kind _ = false

abbrev pub entry_test : Dict Json → Bool
entry_test entry =
    is_kind (get entry (codes "kind"))
    && valid_digest (get_default entry (codes "digest") (str []))
    && is_truthy (get entry (codes "source"))

-- The loop over the evidence, which stops at the first entry that is refused.
unfoldable pub valid_entry : Json → Checked (Unit {0})
unfolding get valid_digest get_default is_truthy
valid_entry v = do
  entry ← require (as_dict v) (codes "invalid evidence entry")
  ensure (entry_test entry) (codes "invalid evidence entry")

abbrev pub dict_of : Json → Checked (Dict Json)
dict_of (obj fs) = ok (entries fs)
dict_of _ = err no_attribute

abbrev pub repo_fields : Dict Json → Checked (Unit {0})
repo_fields repo =
    ensure (is_filled (get repo (codes "url"))) (codes "invalid repository")
    >> ensure (is_commit (get_default repo (codes "commit") (str [])))
        (codes "invalid repository commit")

unfoldable pub valid_repo : Json → Checked (Unit {0})
unfolding get get_default
valid_repo v = require (as_dict v) (codes "invalid repository") >>= repo_fields

abbrev pub artifact_test : Dict Json → Bool
artifact_test artifact =
    valid_digest (get_default artifact (codes "ociDigest") (str []))
    && is_truthy (get artifact (codes "mediaType"))

unfoldable pub valid_artifact : Json → Checked (Unit {0})
unfolding get get_default valid_digest is_truthy
valid_artifact v = require (as_dict v) (codes "invalid artifact") >>= λ artifact.
    ensure (artifact_test artifact) (codes "invalid artifact descriptor")

unfoldable pub valid_evidence : Json → Checked (Unit {0})
unfolding each valid_entry
valid_evidence v = require (as_list v) (codes "evidence must be a list") >>= λ evidence.
    each valid_entry evidence >> ok tt

unfoldable pub valid_fields : Dict Json → Checked (Unit {0})
unfolding get get_default valid_repo valid_artifact valid_evidence
valid_fields d = do
  _ ←
      ensure (is_text (codes "0.1") (get d (codes "schemaVersion")))
        (codes "unsupported schemaVersion")
  _ ← ensure (is_filled (get d (codes "taskId"))) (codes "missing taskId")
  _ ← ensure (is_filled (get d (codes "sessionId"))) (codes "missing sessionId")
  _ ← valid_repo (get_default d (codes "repository") (obj end))
  _ ← valid_artifact (get_default d (codes "artifact") (obj end))
  valid_evidence (get d (codes "evidence"))

-- `validate(record)`
unfoldable pub validate : Json → Checked (Unit {0})
unfolding valid_fields
validate v = dict_of v >>= valid_fields
