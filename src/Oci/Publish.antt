-- ===== src/Oci/Publish.antt =====
-- `publish` of tools/oci_handoff.py: the record, its manifest and the index are written to a
-- layout, which may hold others already.
use rebekah.Prelude.{
  ℕ, Bool, true, false, not, ◌&&◌, Option, none, some, List, [], ◌∷◌, ◌++◌, if◌then◌else◌, length,
}
use rebekah.Prelude.Int.{pos}
use rebekah.Prelude.Text.{Text, codes, text_eq}
use rebekah.Prelude.Dict.{Dict, lookup, insert}
use rebekah.Prelude.Exec.{ok, err}
use rebekah.Json.{Json, str, int, obj, end, field, object, array, as_list, get}
use rebekah.Oci.Act.{Act, ◌>>=◌, checked}
use rebekah.Oci.Refusal.{refused, Checked}
use rebekah.Oci.Disk.{Bytes, is_two}
use rebekah.Oci.Handoff.{is_text, dict_of, validate}

-- What the program calls: SHA-256 in hexadecimal, `json.dumps(v, sort_keys=True, ...).encode()`,
-- with none where the value has no such text, and `json.loads`.
pub record Codec : Type 0 where
  pub sha256 : Bytes → Text
  pub encoded : Json → Option Bytes
  pub loads : Bytes → Option Json

-- The files below the root of a layout; `blobs` are those in blobs/sha256.
pub record Layout : Type 0 where
  pub layout : Option Bytes
  pub index : Option Bytes
  pub blobs : Dict Bytes

abbrev pub Writing : Type 0 → Type 0
Writing A = Act Layout A

abbrev pub oci_manifest : Text
oci_manifest = codes "application/vnd.oci.image.manifest.v1+json"

abbrev pub oci_index : Text
oci_index = codes "application/vnd.oci.image.index.v1+json"

abbrev pub oci_empty : Text
oci_empty = codes "application/vnd.oci.empty.v1+json"

abbrev pub handoff : Text
handoff = codes "application/vnd.ragbaz.workspace-handoff.v1+json"

-- The descriptor that `blob` returns, with the media type that the caller sets.
abbrev pub described : Text → Text → ℕ → Dict Json
described media digest size =
    (codes "mediaType", str media)
    ∷ (codes "digest", str digest)
    ∷ (codes "size", int (pos size))
    ∷ []

-- Whether a blob that is there already holds other bytes.
abbrev pub is_other : Option Bytes → Bytes → Bool
is_other none payload = false
is_other (some bs) payload = not (text_eq bs payload)

abbrev pub digest_text : Text → Text
digest_text hex = codes "sha256:" ++ hex

-- `layout_path.exists() and json.loads(...) != {"imageLayoutVersion": "1.0.0"}`
abbrev pub is_layout : Json → Bool
is_layout (obj (field k (str v) end)) =
    text_eq k (codes "imageLayoutVersion") && text_eq v (codes "1.0.0")
is_layout _ = false

-- Whether the dict is an index, but for its manifests.
abbrev pub is_index : Dict Json → Bool
is_index d = is_two (get d (codes "schemaVersion")) && is_text oci_index (get d (codes "mediaType"))

abbrev pub when_index : Bool → Json → Option (List Json)
when_index true v = as_list v
when_index false v = none

-- `index["manifests"]`, where the dict is an index.
abbrev pub manifests_in : Dict Json → Option (List Json)
manifests_in d = when_index (is_index d) (get d (codes "manifests"))

-- `any(item.get("digest") == digest for item in manifests)`
unfoldable pub lists_digest : Text → List Json → Checked Bool
unfolding get
lists_digest digest [] = ok false
lists_digest digest (v ∷ vs) =
    let rest = lists_digest digest vs in
    elim (dict_of v) [
      | err e ↦ err e
      | ok d ↦ if is_text digest (get d (codes "digest")) then ok true else rest
    ]

abbrev pub manifest_of : Text × ℕ → Text × ℕ → Json
manifest_of payload config = object (
    (codes "schemaVersion", int (pos 2))
    ∷ (codes "mediaType", str oci_manifest)
    ∷ (codes "artifactType", str handoff)
    ∷ (codes "config", object (described oci_empty config.0 config.1))
    ∷ (codes "layers", array (object (described handoff payload.0 payload.1) ∷ []))
    ∷ [])

abbrev pub accept_layout : Json → Writing (Unit {0})
accept_layout v =
    checked (if is_layout v then ok tt else err (refused (codes "unsupported OCI layout")))

abbrev pub accept_index : Json → Writing (Dict Json × List Json)
accept_index v = checked (dict_of v) >>= λ d. checked (elim (manifests_in d) [
  | none ↦ err (refused (codes "invalid existing OCI index"))
  | some ms ↦ ok (d, ms)
])

abbrev pub new_index : Dict Json
new_index =
    (codes "schemaVersion", int (pos 2))
    ∷ (codes "mediaType", str oci_index)
    ∷ (codes "manifests", array [])
    ∷ []

abbrev pub listing_of : Text × ℕ → Json
listing_of d = object (described oci_manifest d.0 d.1 ++ ((codes "artifactType", str handoff) ∷ []))

-- `index["manifests"].append(descriptor)`, unless the digest is listed.
abbrev pub appended : Bool → Dict Json → List Json → Json → Json
appended true d ms v = object d
appended false d ms v = object (insert (codes "manifests") (array (ms ++ (v ∷ []))) d)

abbrev write_layout : Bytes → Writing (Unit {0})
write_layout bs l = (ok tt, record l { layout = some bs })

abbrev write_index : Bytes → Writing (Unit {0})
write_index bs l = (ok tt, record l { index = some bs })

abbrev pub layout_value : Json
layout_value = object ((codes "imageLayoutVersion", str (codes "1.0.0")) ∷ [])

module _ (c : Codec) where
  unfoldable pub encode : Json → Writing Bytes
  encode v l = elim (c.encoded v) [
    | none ↦ (err (refused (codes "unencodable")), l)
    | some bs ↦ (ok bs, l)
  ]

  unfoldable pub loaded : Bytes → Writing Json
  loaded bs l = elim (c.loads bs) [
    | none ↦ (err (refused (codes "invalid JSON")), l)
    | some v ↦ (ok v, l)
  ]

  -- `blob`: the digest and the size of what it wrote.
  unfoldable pub blob : Bytes → Writing (Text × ℕ)
  unfolding lookup insert
  blob payload l =
      if is_other (lookup (c.sha256 payload) l.blobs) payload
      then (err (refused (codes "digest collision or corrupt existing blob")), l)
      else (
        ok (digest_text (c.sha256 payload), length payload),
        record l { blobs = insert (c.sha256 payload) payload l.blobs },
      )

  abbrev pub check_layout : Option Bytes → Writing (Unit {0})
  check_layout none = checked (ok tt)
  check_layout (some bs) = loaded bs >>= accept_layout

  -- The index that is there, or a new one, with its manifests.
  abbrev pub read_index : Option Bytes → Writing (Dict Json × List Json)
  read_index none = checked (ok (new_index, []))
  read_index (some bs) = loaded bs >>= accept_index

  -- From the digest of the manifest on, with the files that are there: the index and its update.
  unfoldable pub enter_with : Option Bytes → Option Bytes → Text × ℕ → Writing Text
  unfolding loaded lists_digest encode insert
  enter_with layout_file index_file d = do
    _ ← check_layout layout_file
    index ← read_index index_file
    listed ← checked (lists_digest d.0 index.1)
    layout ← encode layout_value
    _ ← write_layout layout
    bytes ← encode (appended listed index.0 index.1 (listing_of d))
    _ ← write_index bytes
    checked (ok d.0)

  unfoldable pub enter : Text × ℕ → Writing Text
  unfolding enter_with
  enter d l = enter_with l.layout l.index d l

  -- `publish(record, root)`
  unfoldable pub publish : Json → Writing Text
  unfolding validate encode blob enter
  publish v = do
    _ ← checked (validate v)
    payload_bytes ← encode v
    payload ← blob payload_bytes
    config ← blob (codes "{}")
    manifest_bytes ← encode (manifest_of payload config)
    d ← blob manifest_bytes
    enter d
