-- ===== src/Oci/Inspect.antt =====
-- `inspect` of tools/oci_inspect.py: the manifests of a layout, the subjects that they name, who
-- refers to whom, and the check that no chain of subjects goes round.
use rebekah.Prelude.{
  ℕ, zero, suc, Bool, true, false, not, ◌&&◌, ◌||◌, ◌==◌, leb, Option, none, some, List, [], ◌∷◌,
  ◌++◌, map, if◌then◌else◌, length,
}
use rebekah.Prelude.Text.{Text, codes, text_eq, is_member}
use rebekah.Prelude.Sort.{sorted}
use rebekah.Prelude.Dict.{Dict, lookup, insert, has_key}
use rebekah.Prelude.Exec.{ok, err}
use rebekah.Json.{Json, null, str, as_dict, as_list, get}
use rebekah.Oci.Refusal.{
  refused, io_error, missing_key, endless, Checked, ◌>>=◌, ◌>>◌, ensure, require, each,
}
use rebekah.Oci.Disk.{
  Host, Node, Disk, Descriptor, digest_of, filled, natural, is_two, object_of, read,
}

abbrev pub max_index : ℕ
max_index = 1048576

abbrev pub max_manifest : ℕ
max_manifest = 4194304

abbrev pub max_blob : ℕ
max_blob = 134217728

abbrev pub max_descriptors : ℕ
max_descriptors = 256

pub data Status : Type 0 where
  no_subject unresolved local_association : Status

abbrev pub is_local : Status → Bool
is_local local_association = true
is_local _ = false

-- `own` is the descriptor in the index; the code sets the last two fields in later passes.
pub record Artifact : Type 0 where
  pub own : Descriptor
  pub artifact_type : Json
  pub subject_value : Json
  pub subject : Option Descriptor
  pub layers : List Descriptor
  pub status : Status
  pub referrers : List Text

-- The checks of a subject; its size has no upper limit.
abbrev bad_subject : Text
bad_subject = codes "invalid OCI subject descriptor"

unfoldable pub subject_of : Json → Checked (Option Descriptor)
unfolding get
subject_of null = ok none
subject_of v = do
  d ← require (as_dict v) bad_subject
  digest ← require (digest_of (get d (codes "digest"))) bad_subject
  size ← require (natural (get d (codes "size"))) bad_subject
  media ← require (filled (get d (codes "mediaType"))) bad_subject
  ok (some (record { digest = digest; size = size; media_type = media }))

-- `manifest["layers"]`, where the manifest passes its checks.
abbrev short_list : ℕ → Option (List Json) → Option (List Json)
short_list limit none = none
short_list limit (some xs) = if leb (length xs) limit then some xs else none

abbrev when_true : {A : Type 0} → Bool → Option A → Option A
when_true true o = o
when_true false o = none

unfoldable pub layers_of : Dict Json → Option (List Json)
unfolding get
layers_of manifest =
    when_true (is_two (get manifest (codes "schemaVersion")))
      (short_list max_descriptors (as_list (get manifest (codes "layers"))))

module _ (h : Host) (disk : Disk) where
  -- The body of the loop over the index, up to the check for a duplicate.
  unfoldable pub artifact_of : Json → Checked Artifact
  unfolding read object_of layers_of each subject_of
  artifact_of v = do
    found ← read h disk max_manifest v
    manifest ← object_of h (codes "manifest") found.1
    layers ← require (layers_of manifest) (codes "invalid OCI manifest")
    config ← read h disk max_blob (get manifest (codes "config"))
    blobs ← each (read h disk max_blob) layers
    subject ← subject_of (get manifest (codes "subject"))
    ok (record {
      own = found.0;
      artifact_type = get manifest (codes "artifactType");
      subject_value = get manifest (codes "subject");
      subject = subject;
      layers = map (λ b. b.0) blobs;
      status = no_subject;
      referrers = [];
    })

  -- The loop over the index: the artifacts, and `manifest_by_digest`.
  unfoldable pub scan : List Json → Dict Descriptor → Checked (List Artifact × Dict Descriptor)
  unfolding artifact_of
  scan [] seen = ok ([], seen)
  scan (v ∷ vs) seen = do
    a ← artifact_of v
    _ ← ensure (not (has_key a.own.digest seen)) (codes "duplicate OCI manifest digest")
    rest ← scan vs (insert a.own.digest a.own seen)
    ok (a ∷ rest.0, rest.1)

-- The pass that compares each subject with the manifest that it names.
abbrev pub compared : Artifact → Descriptor → Option Descriptor → Checked Artifact
compared a s none = ok (record a { status = unresolved })
compared a s (some target) =
    if s.size == target.size && text_eq s.media_type target.media_type
    then ok (record a { status = local_association })
    else err (refused (codes "OCI subject descriptor mismatch"))

abbrev pub rated : Dict Descriptor → Artifact → Option Descriptor → Checked Artifact
rated seen a none = ok (record a { status = no_subject })
rated seen a (some s) = compared a s (lookup s.digest seen)

unfoldable pub rate : Dict Descriptor → Artifact → Checked Artifact
rate seen a = rated seen a a.subject

-- The digest of the manifest that an artifact is verified to refer to.
abbrev target_by : Status → Option Descriptor → Option Text
target_by local_association (some s) = some s.digest
target_by _ _ = none

abbrev pub target_of : Artifact → Option Text
target_of a = target_by a.status a.subject

-- `by_digest[target]["referrers"].append(digest)`; a digest names one artifact.
unfoldable pub append_referrer : Text → Text → List Artifact → List Artifact
append_referrer target digest [] = []
append_referrer target digest (a ∷ rest) =
    (if text_eq a.own.digest target
      then record a { referrers = a.referrers ++ (digest ∷ []) }
      else a)
    ∷ append_referrer target digest rest

abbrev pub refer_to : Option Text → Text → List Artifact → List Artifact
refer_to none digest artifacts = artifacts
refer_to (some target) digest artifacts = append_referrer target digest artifacts

-- The loop that appends, over the artifacts that remain.
unfoldable pub link : List Artifact → List Artifact → List Artifact
unfolding append_referrer
link [] artifacts = artifacts
link (a ∷ rest) artifacts = link rest (refer_to (target_of a) a.own.digest artifacts)

abbrev pub sort_referrers : Artifact → Artifact
sort_referrers a = record a { referrers = sorted a.referrers }

unfoldable pub link_all : List Artifact → List Artifact
unfolding link
link_all artifacts = map sort_referrers (link artifacts artifacts)

-- `{artifact["digest"]: artifact for artifact in artifacts}`
unfoldable pub index_from : Dict Artifact → List Artifact → Dict Artifact
index_from d [] = d
index_from d (a ∷ rest) = index_from (insert a.own.digest a d) rest

unfoldable pub by_digest : List Artifact → Dict Artifact
unfolding index_from
by_digest = index_from []

-- One turn of the `while`, given what the rest of the loop does at the next artifact.
abbrev pub follow : Option Artifact → (Artifact → Checked (Unit {0})) → Checked (Unit {0})
follow none next = err missing_key
follow (some b) next = next b

abbrev pub turn_by :
    Option Text → Bool → Dict Artifact → (Artifact → Checked (Unit {0})) → Checked (Unit {0})
turn_by none visited index next = ok tt
turn_by (some target) true index next = err (refused (codes "cyclic OCI subject graph"))
turn_by (some target) false index next = follow (lookup target index) next

-- The `while` of the cycle check. Fuel stands for its turns; `endless` says that it was not enough.
unfoldable pub walk : Dict Artifact → ℕ → List Text → Artifact → Checked (Unit {0})
walk index zero visited current = err endless
walk index (suc fuel) visited current =
    turn_by (target_of current) (is_member current.own.digest visited) index
      (λ next. walk index fuel (current.own.digest ∷ visited) next)

-- One turn more than there are artifacts.
unfoldable pub refuse_cycles : List Artifact → Checked (Unit {0})
unfolding walk by_digest each
refuse_cycles artifacts =
    each (walk (by_digest artifacts) (suc (length artifacts)) []) artifacts >> ok tt

abbrev index_type : Json → Bool
index_type null = true
index_type (str s) = text_eq s (codes "application/vnd.oci.image.index.v1+json")
index_type _ = false

-- `index["manifests"]`, where the index passes its checks.
unfoldable pub manifests_of : Dict Json → Option (List Json)
unfolding get
manifests_of index =
    when_true
      (is_two (get index (codes "schemaVersion")) && index_type (get index (codes "mediaType")))
      (short_list max_descriptors (as_list (get index (codes "manifests"))))

abbrev is_version : Json → Bool
is_version (str s) = text_eq s (codes "1.0.0")
is_version _ = false

-- `path.stat()` and `path.read_bytes()` of a file that is not there raise an OSError; a
-- name that is there is a regular file.
abbrev pub present : Node → Checked (Unit {0})
present node = if node.is_file then ok tt else err io_error

-- What is checked before the manifests: `index["manifests"]`.
unfoldable pub listed : Host → Disk → Checked (List Json)
unfolding object_of manifests_of
listed h disk = do
  _ ← ensure (disk.root_is_dir && not disk.root_is_symlink) (codes "unsafe OCI layout root")
  _ ←
      ensure (not (disk.layout.is_symlink || disk.index.is_symlink))
        (codes "unsafe OCI layout path")
  _ ← present disk.layout
  _ ← present disk.index
  _ ←
      ensure (leb disk.layout.stat_size 4096 && leb disk.index.stat_size max_index)
        (codes "OCI metadata exceeds limit")
  layout ← object_of h (codes "layout") disk.layout.content
  _ ← ensure (is_version (get layout (codes "imageLayoutVersion"))) (codes "unsupported OCI layout")
  index ← object_of h (codes "index") disk.index.content
  require (manifests_of index) (codes "invalid OCI index")

-- The rest of `inspect`: the artifacts, with their subjects and referrers.
unfoldable pub assess : Host → Disk → List Json → Checked (List Artifact)
unfolding scan rate each link_all refuse_cycles
assess h disk manifests = do
  found ← scan h disk manifests []
  artifacts ← each (rate found.1) found.0
  _ ← refuse_cycles (link_all artifacts)
  ok (link_all artifacts)

unfoldable pub inspect : Host → Disk → Checked (List Artifact)
unfolding listed assess
inspect h disk = do manifests ← listed h disk; assess h disk manifests
