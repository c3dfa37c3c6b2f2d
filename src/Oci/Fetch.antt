-- ===== src/Oci/Fetch.antt =====
-- The checks that `fetch_manifest` makes of a reply, in tools/oci_registry_probe.py.
use rebekah.Prelude.{
  ◌+◌, Bool, true, false, not, ◌&&◌, ◌||◌, ◌==◌, Option, none, some, List, [], ◌∷◌, length, leb,
  take, all,
}
use rebekah.Prelude.Int.{ℤ, pos, int_leb}
use rebekah.Prelude.Text.{Text, codes, text_eq, is_empty, is_member, partition, strip}
use rebekah.Prelude.Exec.{Result, ok, err, Raised}
use rebekah.Json.{as_dict, get}
use rebekah.Regex.{is_digit}
use rebekah.Http.Message.{int_of}
use rebekah.Oci.Refusal.{Checked, require, ensure, ◌>>=◌}
use rebekah.Oci.Disk.{Bytes, Host, is_two, hex_of}
use rebekah.Oci.Inspect.{max_manifest}
use rebekah.Oci.Connection.{Reply}

abbrev pub manifest_type : Text
manifest_type = codes "application/vnd.oci.image.manifest.v1+json"

abbrev pub manifest_types : List Text
manifest_types = manifest_type ∷ codes "application/vnd.oci.image.index.v1+json" ∷ []

abbrev or_empty : Option Text → Text
or_empty none = []
or_empty (some s) = s

-- `response.getheader("Content-Type", "").split(";")[0].strip()`
unfoldable pub media_type_of : Option Text → Text
unfolding partition strip
media_type_of t = let (before, found, after) = partition b';' (or_empty t) in strip before

-- `length.isdigit()`, for the characters that a header can hold.
abbrev is_numeric : Text → Bool
is_numeric s = not (is_empty s) && all (λ c. is_digit c || c == 0xb2 || c == 0xb3 || c == 0xb9) s

abbrev satisfies : (ℤ → Bool) → Result Raised ℤ → Bool
satisfies test (ok n) = test n
satisfies test (err e) = false

-- Whether an announced length, where there is one, is a number that passes a test.
unfoldable pub length_passes : (ℤ → Bool) → Option Text → Bool
unfolding int_of
length_passes test none = true
length_passes test (some s) = is_numeric s && satisfies test (int_of s)

module _ (h : Host) where
  -- A manifest's bytes and media type, where the reply passes.
  unfoldable pub accept_manifest : Text → Reply → Checked (Bytes × Text)
  unfolding media_type_of length_passes get
  accept_manifest digest r =
      let media = media_type_of r.content_type in
      let payload = take (max_manifest + 1) r.body in
      do
        _ ← ensure (r.status == 200) (codes "anonymous manifest access required")
        _ ← ensure (is_member media manifest_types) (codes "unsupported manifest media type")
        _ ←
            ensure (length_passes (λ n. int_leb n (pos max_manifest)) r.content_length)
              (codes "manifest too large")
        _ ←
            ensure (leb (length payload) max_manifest && text_eq (h.sha256 payload) (hex_of digest))
              (codes "manifest size or SHA-256 mismatch")
        v ← require (h.loads payload) (codes "invalid JSON")
        d ← require (as_dict v) (codes "invalid OCI manifest JSON")
        _ ← ensure (is_two (get d (codes "schemaVersion"))) (codes "invalid OCI manifest JSON")
        ok (payload, media)
