-- ===== src/Oci/Disk.antt =====
-- What tools/oci_inspect.py reads: a directory with blobs, and `_object` and `_read`.
use rebekah.Prelude.{
  ℕ, ◌+◌, Bool, false, not, ◌&&◌, ◌||◌, ◌==◌, leb, Option, none, some, List, ◌++◌, if◌then◌else◌,
  length, take, drop,
}
use rebekah.Prelude.Int.{pos}
use rebekah.Prelude.Text.{Text, codes, text_eq, is_empty, starts_with}
use rebekah.Prelude.Dict.{Dict}
use rebekah.Prelude.Exec.{ok}
use rebekah.Json.{Json, str, int, float, as_dict, get}
use rebekah.Regex.{run_of, is_hex}
use rebekah.Oci.Refusal.{Checked, ◌>>=◌, ◌>>◌, ensure, require}

abbrev pub Bytes : Type 0
Bytes = List ℕ

-- `hashlib.sha256(b).hexdigest()` and `json.loads`, with none for a ValueError.
pub record Host : Type 0 where
  pub sha256 : Bytes → Text
  pub loads : Bytes → Option Json

-- A name in the file system.
pub record Node : Type 0 where
  pub is_symlink : Bool
  pub is_file : Bool
  pub stat_size : ℕ
  pub content : Bytes

-- A layout's directory: `blob` is the file of that name in blobs/sha256.
pub record Disk : Type 0 where
  pub root_is_symlink : Bool
  pub root_is_dir : Bool
  pub blobs_is_symlink : Bool
  pub sha256_is_symlink : Bool
  pub layout : Node
  pub index : Node
  pub blob : Text → Node

pub record Descriptor : Type 0 where
  pub digest : Text
  pub size : ℕ
  pub media_type : Text

-- `DIGEST.fullmatch(s)`
unfoldable pub is_digest : Text → Bool
unfolding run_of starts_with
is_digest s = starts_with s (codes "sha256:") && run_of is_hex 64 64 (drop 7 s)

abbrev pub digest_of : Json → Option Text
digest_of (str s) = if is_digest s then some s else none
digest_of _ = none

-- A text that is not empty.
abbrev pub filled : Json → Option Text
filled (str s) = if is_empty s then none else some s
filled _ = none

-- `type(v) is int and v >= 0`, and at most a limit.
abbrev pub natural : Json → Option ℕ
natural (int (pos n)) = some n
natural _ = none

abbrev pub at_most : ℕ → Option ℕ → Option ℕ
at_most limit none = none
at_most limit (some n) = if leb n limit then some n else none

-- `v == 2`: the float 2.0 is equal too.
abbrev pub is_two : Json → Bool
is_two (int (pos n)) = n == 2
is_two (float t) = text_eq t (codes "2.0")
is_two _ = false

-- The checks of `_read` on the descriptor.
unfoldable pub descriptor_of : ℕ → Json → Checked Descriptor
unfolding get is_digest
descriptor_of limit v = do
  d ← require (as_dict v) (codes "invalid OCI descriptor")
  digest ← require (digest_of (get d (codes "digest"))) (codes "unsupported OCI digest")
  media ← require (filled (get d (codes "mediaType"))) (codes "invalid OCI descriptor media type")
  size ← require (at_most limit (natural (get d (codes "size")))) (codes "invalid OCI blob size")
  ok (record { digest = digest; size = size; media_type = media })

-- The name of a blob: `digest[7:]`.
abbrev pub hex_of : Text → Text
hex_of digest = drop 7 digest

module _ (h : Host) where
  -- `_object`
  unfoldable pub object_of : Text → Bytes → Checked (Dict Json)
  object_of label bytes = do
    v ← require (h.loads bytes) (codes "invalid " ++ (label ++ codes " JSON"))
    require (as_dict v) (codes "invalid " ++ (label ++ codes " object"))

  module _ (disk : Disk) where
    -- The rest of `_read`: the checks of the file, and its bytes.
    unfoldable pub read_blob : ℕ → Descriptor → Checked Bytes
    read_blob limit d =
        let node = disk.blob (hex_of d.digest) in
        let payload = take (limit + 1) node.content in
        ensure
          (not (
            disk.blobs_is_symlink || disk.sha256_is_symlink || node.is_symlink || not node.is_file))
          (codes "missing or unsafe OCI blob")
        >> (ensure (node.stat_size == d.size) (codes "OCI blob size mismatch")
            >> (ensure (length payload == d.size && text_eq (h.sha256 payload) (hex_of d.digest))
                  (codes "OCI blob digest mismatch")
                >> ok payload))

    -- `_read`, with the checked descriptor.
    unfoldable pub read : ℕ → Json → Checked (Descriptor × Bytes)
    unfolding descriptor_of read_blob
    read limit v = do d ← descriptor_of limit v; payload ← read_blob limit d; ok (d, payload)
