-- ===== src/Oci/HandoffTests.antt =====
-- A handoff that is published and verified, with a codec that knows the four values it needs.
use rebekah.Prelude.{
  ℕ, zero, suc, ◌+◌, ◌≡◌, refl, true, false, none, some, Option, List, [], ◌∷◌, if◌then◌else◌, ◌==◌,
  ==_iff, ◌≤◌, ltb, length, all, Bool-cases, inl, inr, arith, ap, sym,
}
use mathlib.Core.Path.{subst}
use rebekah.Prelude.Text.{Text, codes, text_eq}
use rebekah.Prelude.Dict.{insert}
use rebekah.Prelude.Exec.{ok}
use rebekah.Json.{Json, str, object, array}
use rebekah.Json.Canonical.{canonical}
use rebekah.Json.Equal.{json_eq, json_eq_sound}
use rebekah.Regex.{is_hex}
use rebekah.Oci.Disk.{Bytes}
use rebekah.Oci.Publish.{
  Codec, Layout, publish, digest_text, manifest_of, listing_of, appended, new_index, layout_value,
}
use rebekah.Oci.Verify.{verify}
use rebekah.Oci.RoundTrip.{IsFaithful, verify-publish}

repeat : ℕ → ℕ → Text
repeat zero c = []
repeat (suc n) c = c ∷ repeat n c

length-repeat : (n c : ℕ) → length (repeat n c) ≡ n
unfolding repeat
length-repeat zero c = refl
length-repeat (suc n) c = ap suc (length-repeat n c)

hex_repeat : (n c : ℕ) → is_hex c ≡ true → all is_hex (repeat n c) ≡ true
unfolding repeat
hex_repeat zero c h = refl
hex_repeat (suc n) c h = rw (h, hex_repeat n c h) refl

-- A digit for the first byte.
hash_digit : Bytes → ℕ
hash_digit [] = 48
hash_digit (b ∷ bs) = if ltb b 9 then 48 + b else 57

is_hex-hash_digit : (bs : Bytes) → is_hex (hash_digit bs) ≡ true
unfolding hash_digit
is_hex-hash_digit [] = refl
is_hex-hash_digit (b ∷ bs) = ground arith

hash : Bytes → Text
hash bs = repeat 64 (hash_digit bs)

abbrev handoff_record : Json
handoff_record = object (
    (codes "schemaVersion", str (codes "0.1"))
    ∷ (codes "taskId", str (codes "t"))
    ∷ (codes "sessionId", str (codes "s"))
    ∷ (
      codes "repository",
      object ((codes "url", str (codes "u")) ∷ (codes "commit", str (repeat 40 97)) ∷ []),
    )
    ∷ (
      codes "artifact",
      object (
          (codes "ociDigest", str (digest_text (repeat 64 97)))
          ∷ (codes "mediaType", str (codes "m"))
          ∷ []),
    )
    ∷ (codes "evidence", array [])
    ∷ [])

abbrev named : Bytes → Text × ℕ
named bs = (digest_text (hash bs), length bs)

abbrev known_manifest : Json
known_manifest = manifest_of (named (1 ∷ [])) (named (codes "{}"))

abbrev known_index : Json
known_index = appended false new_index [] (listing_of (named (2 ∷ [])))

abbrev known : List Json
known = handoff_record ∷ known_manifest ∷ layout_value ∷ known_index ∷ []

-- A known value is encoded as its place in the list.
encode_from : ℕ → List Json → Json → Option Bytes
encode_from n [] v = none
encode_from n (w ∷ ws) v = if json_eq v w then some (n ∷ []) else encode_from (suc n) ws v

decode_from : ℕ → List Json → ℕ → Option Json
decode_from n [] b = none
decode_from n (w ∷ ws) b = if b == n then some (canonical w) else decode_from (suc n) ws b

first_byte : Bytes → ℕ
first_byte [] = 0
first_byte (b ∷ bs) = b

encode_from-le :
    (n : ℕ) (ws : List Json) (v : Json) (bs : Bytes)
    → encode_from n ws v ≡ some bs
    → n ≤ first_byte bs
unfolding encode_from first_byte
encode_from-le n [] v bs e = absurd (cc e)
encode_from-le n (w ∷ ws) v bs e = elim (Bool-cases (json_eq v w)) [
  | inl same ↦
      let found : n ∷ [] ≡ bs = ground arith in subst (λ x. n ≤ first_byte x) found (omega arith)
  | inr other ↦ ground (arith, encode_from-le (suc n) ws v bs)
]

decode-encode :
    (n : ℕ) (ws : List Json) (v : Json) (bs : Bytes)
    → encode_from n ws v ≡ some bs
    → decode_from n ws (first_byte bs) ≡ some (canonical v)
unfolding encode_from decode_from first_byte
decode-encode n [] v bs e = absurd (cc e)
decode-encode n (w ∷ ws) v bs e = elim (Bool-cases (json_eq v w)) [
  | inl same ↦
      let found : n ∷ [] ≡ bs = ground arith in
      subst
        (λ x.
          (if first_byte x == n then some (canonical w) else decode_from (suc n) ws (first_byte x))
          ≡ some (canonical v))
        found
        (rw ((==_iff n n).1 refl) (ap (λ x. some (canonical x)) (sym (json_eq_sound v w same))))
  | inr other ↦
      let later : encode_from (suc n) ws v ≡ some bs = ground arith in
      ground (arith, decode-encode (suc n) ws v bs, encode_from-le (suc n) ws v bs)
]

abbrev codec : Codec
codec = record {
  sha256 = hash;
  encoded = encode_from 1 known;
  loads = λ bs. decode_from 1 known (first_byte bs);
}

codec-IsFaithful : IsFaithful codec
unfolding hash
codec-IsFaithful = record {
  hashes = λ bs.
      (length-repeat 64 (hash_digit bs), hex_repeat 64 (hash_digit bs) (is_hex-hash_digit bs));
  reads_back = decode-encode 1 known;
}

abbrev empty : Layout
empty = record { layout = none; index = none; blobs = [] }

abbrev filled : Layout
filled = record {
  layout = some (3 ∷ []);
  index = some (4 ∷ []);
  blobs = (hash (1 ∷ []), 1 ∷ []) ∷ (hash (codes "{}"), codes "{}") ∷ (hash (2 ∷ []), 2 ∷ []) ∷ [];
}

publish_record : publish codec handoff_record empty ≡ (ok (digest_text (hash (2 ∷ []))), filled)
unfolding publish hash repeat hash_digit encode_from json_eq text_eq insert
publish_record = refl

verify-publish_example : verify codec filled ≡ ok (canonical handoff_record)
verify-publish_example =
    verify-publish codec codec-IsFaithful handoff_record empty filled (digest_text (hash (2 ∷ [])))
      refl publish_record
