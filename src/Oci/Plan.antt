-- ===== src/Oci/Plan.antt =====
-- What `acquire` of tools/oci_registry_acquire.py decides of a manifest before it fetches a blob,
-- and of the reply to each request for one.
use rebekah.Prelude.{
  ℕ, ◌+◌, Bool, true, false, ◌&&◌, ◌==◌, Option, none, some, List, [], ◌∷◌, if◌then◌else◌, length,
  leb, take,
}
use rebekah.Prelude.Int.{pos, int_eq}
use rebekah.Prelude.Text.{Text, codes, text_eq}
use rebekah.Prelude.Dict.{Dict, lookup, insert}
use rebekah.Prelude.Exec.{ok}
use rebekah.Json.{Json, str, as_dict, as_list, get}
use rebekah.Oci.Refusal.{Checked, ensure, require, each, ◌>>=◌}
use rebekah.Oci.Disk.{
  Bytes, Host, Descriptor, is_digest, digest_of, natural, at_most, filled, is_two, hex_of,
}
use rebekah.Oci.Inspect.{max_blob}
use rebekah.Oci.Connection.{Reply}
use rebekah.Oci.Fetch.{manifest_type, length_passes}

abbrev pub max_total : ℕ
max_total = 268435456

abbrev pub max_layers : ℕ
max_layers = 256

-- `_descriptor`
unfoldable pub blob_descriptor : Json → Checked Descriptor
unfolding get is_digest
blob_descriptor v = do
  d ← require (as_dict v) (codes "invalid blob digest")
  digest ← require (digest_of (get d (codes "digest"))) (codes "invalid blob digest")
  size ← require (at_most max_blob (natural (get d (codes "size")))) (codes "invalid blob size")
  media ← require (filled (get d (codes "mediaType"))) (codes "invalid blob media type")
  ok (record { digest = digest; size = size; media_type = media })

-- `{d["digest"]: d for d in descriptors}`
unfoldable pub unique_from : Dict Descriptor → List Descriptor → Dict Descriptor
unfolding insert
unique_from seen [] = seen
unique_from seen (d ∷ ds) = unique_from (insert d.digest d seen) ds

abbrev agrees : Descriptor → Option Descriptor → Bool
agrees d none = false
agrees d (some e) = e.size == d.size && text_eq e.media_type d.media_type

-- No two of the descriptors tell different things of one digest.
unfoldable pub agree : Dict Descriptor → List Descriptor → Bool
unfolding lookup
agree unique [] = true
agree unique (d ∷ ds) = agrees d (lookup d.digest unique) && agree unique ds

abbrev pub values_of : Dict Descriptor → List Descriptor
values_of [] = []
values_of ((k, d) ∷ rest) = d ∷ values_of rest

abbrev pub sum_sizes : List Descriptor → ℕ
sum_sizes [] = 0
sum_sizes (d ∷ ds) = d.size + sum_sizes ds

-- `manifest.get("mediaType", MANIFEST_TYPE) == MANIFEST_TYPE`
abbrev is_type : Option Json → Bool
is_type none = true
is_type (some (str s)) = text_eq s manifest_type
is_type (some _) = false

abbrev short : Option (List Json) → Option (List Json)
short none = none
short (some vs) = if leb (length vs) max_layers then some vs else none

-- The manifest, where it is one of a single image.
unfoldable pub image_manifest : Host → Bytes → Checked (Dict Json)
unfolding get lookup
image_manifest h payload = do
  v ← require (h.loads payload) (codes "invalid JSON")
  manifest ← require (as_dict v) (codes "invalid OCI image manifest")
  _ ← ensure (is_two (get manifest (codes "schemaVersion"))) (codes "invalid OCI image manifest")
  _ ← ensure (is_type (lookup (codes "mediaType") manifest)) (codes "invalid OCI image manifest")
  ok manifest

-- The descriptors of the configuration and of the layers.
unfoldable pub descriptors_of : Dict Json → Checked (List Descriptor)
unfolding get blob_descriptor each
descriptors_of manifest = do
  layers ←
      require (short (as_list (get manifest (codes "layers")))) (codes "invalid OCI image manifest")
  config ← blob_descriptor (get manifest (codes "config"))
  others ← each blob_descriptor layers
  ok (config ∷ others)

-- The blobs to fetch, and the size of all files.
unfoldable pub within_limit : ℕ → List Descriptor → Checked (List Descriptor × ℕ)
within_limit size ds = do
  _ ← ensure (leb (size + sum_sizes ds) max_total) (codes "OCI layout exceeds aggregate size limit")
  ok (ds, size + sum_sizes ds)

unfoldable pub plan : Host → Text → Bytes × Text → Checked (List Descriptor × ℕ)
unfolding image_manifest descriptors_of unique_from agree is_digest within_limit
plan h digest found = do
  _ ← ensure (text_eq found.1 manifest_type) (codes "only single OCI image manifests supported")
  _ ←
      ensure (is_digest digest && text_eq (h.sha256 found.0) (hex_of digest))
        (codes "OCI manifest SHA-256 mismatch")
  manifest ← image_manifest h found.0
  ds ← descriptors_of manifest
  _ ← ensure (agree (unique_from [] ds) ds) (codes "conflicting descriptors for same digest")
  within_limit (length found.0) (values_of (unique_from [] ds))

-- The bytes of a blob, where the reply passes.
unfoldable pub accept_blob : Host → Descriptor → Reply → Checked Bytes
unfolding length_passes
accept_blob h d r =
    let payload = take (d.size + 1) r.body in
    do
      _ ← ensure (r.status == 200) (codes "redirects are not followed")
      _ ←
          ensure (length_passes (λ n. int_eq n (pos d.size)) r.content_length)
            (codes "OCI blob Content-Length mismatch")
      _ ←
          ensure (length payload == d.size && text_eq (h.sha256 payload) (hex_of d.digest))
            (codes "OCI blob size or SHA-256 mismatch")
      ok payload
