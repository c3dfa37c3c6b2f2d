-- ===== src/Oci/Verify.antt =====
-- `verify` of tools/oci_handoff.py: the one handoff of a layout, read back.
use rebekah.Prelude.{
  ℕ, Bool, true, false, ◌&&◌, ◌==◌, Option, none, some, List, [], ◌∷◌, ◌++◌, if◌then◌else◌, length,
  drop, take,
}
use rebekah.Prelude.Int.{pos}
use rebekah.Prelude.Text.{Text, codes, text_eq, decimal}
use rebekah.Prelude.Dict.{lookup}
use rebekah.Prelude.Exec.{ok, err}
use rebekah.Json.{Json, boolean, int, float, str, arr, obj, entries, elements, get}
use rebekah.Oci.Refusal.{
  refused, missing_key, wrong_type, io_error, Checked, ◌>>=◌, ensure, require,
}
use rebekah.Oci.Disk.{Bytes}
use rebekah.Oci.Handoff.{is_text, dict_of, validate, valid_digest}
use rebekah.Oci.Publish.{Codec, Layout, handoff, manifests_in}

-- `v[k]` of any value.
abbrev pub found_key : Option Json → Checked Json
found_key none = err missing_key
found_key (some v) = ok v

unfoldable pub item : Json → Text → Checked Json
unfolding lookup
item (obj fs) k = found_key (lookup k (entries fs))
item _ k = err wrong_type

-- `len(b) == v`
abbrev pub equals_length : ℕ → Json → Bool
equals_length n (int (pos m)) = m == n
equals_length n (boolean true) = n == 1
equals_length n (boolean false) = n == 0
equals_length n (float t) = text_eq t (decimal n ++ codes ".0")
equals_length n _ = false

abbrev pub present : Option Bytes → Checked Bytes
present none = err io_error
present (some bs) = ok bs

-- The name of a blob: `digest[7:]` of a digest.
abbrev pub name_of : Json → Text
name_of (str s) = drop 7 s
name_of _ = []

-- `len(v.get("layers", []))`
abbrev pub length_of : Option Json → Checked ℕ
length_of none = ok 0
length_of (some (arr vs)) = ok (length (elements vs))
length_of (some (obj fs)) = ok (length (entries fs))
length_of (some (str s)) = ok (length s)
length_of (some _) = err wrong_type

-- `v[0]`
abbrev first_in : List Json → Checked Json
first_in [] = err missing_key
first_in (v ∷ vs) = ok v

abbrev pub first_of : Json → Checked Json
first_of (arr vs) = first_in (elements vs)
first_of (str s) = ok (str (take 1 s))
first_of (obj fs) = err missing_key
first_of _ = err wrong_type

-- `[item for item in manifests if item.get("artifactType") == HANDOFF]`
unfoldable pub handoffs : List Json → Checked (List Json)
unfolding get
handoffs [] = ok []
handoffs (v ∷ vs) =
    let rest = handoffs vs in
    dict_of v >>= λ d.
    rest >>= λ ws. ok (if is_text handoff (get d (codes "artifactType")) then v ∷ ws else ws)

abbrev pub only : List Json → Option Json
only (v ∷ []) = some v
only _ = none

abbrev pub filled_list : Option (List Json) → Option (List Json)
filled_list (some (v ∷ vs)) = some (v ∷ vs)
filled_list _ = none

module _ (c : Codec) (l : Layout) where
  unfoldable pub loads : Bytes → Checked Json
  loads bs = require (c.loads bs) (codes "invalid JSON")

  -- `read(desc)`
  unfoldable pub read_desc : Json → Checked Bytes
  unfolding item valid_digest lookup decimal
  read_desc desc = do
    digest ← item desc (codes "digest")
    _ ← ensure (valid_digest digest) (codes "invalid digest")
    payload ← present (lookup (name_of digest) l.blobs)
    size ← item desc (codes "size")
    _ ←
        ensure (equals_length (length payload) size && text_eq (c.sha256 payload) (name_of digest))
          (codes "digest or size mismatch")
    ok payload

  -- The record that a manifest leads to.
  unfoldable pub open_manifest : Json → Checked Json
  unfolding loads read_desc item get lookup validate
  open_manifest v = do
    manifest ← dict_of v
    layers ←
        (if is_text handoff (get manifest (codes "artifactType"))
          then length_of (lookup (codes "layers") manifest)
          else err (refused (codes "unexpected artifact")))
    _ ← ensure (layers == 1) (codes "unexpected artifact")
    config ← item v (codes "config")
    _ ← read_desc config
    listed ← item v (codes "layers")
    layer ← first_of listed
    payload ← read_desc layer
    record_ ← loads payload
    _ ← validate record_
    ok record_

  unfoldable pub verify : Checked Json
  unfolding loads handoffs read_desc open_manifest
  verify = do
    bytes ← present l.index
    v ← loads bytes
    index ← dict_of v
    manifests ← require (filled_list (manifests_in index)) (codes "invalid index")
    found ← handoffs manifests
    listed ← require (only found) (codes "expected exactly one workspace handoff")
    manifest_bytes ← read_desc listed
    manifest ← loads manifest_bytes
    open_manifest manifest
