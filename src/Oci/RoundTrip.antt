-- ===== src/Oci/RoundTrip.antt =====
-- `publish` and then `verify` of tools/oci_handoff.py.
use rebekah.Prelude.{
  ℕ, ◌≡◌, refl, ap, sym, ◌∙◌, true, false, ==_iff, none, some, [], length, all, arith,
}
use rebekah.Prelude.Int.{pos}
use mathlib.Core.Path.{subst}
use rebekah.Prelude.Text.{Text, codes, text_eq, text_eq_refl}
use rebekah.Prelude.Dict.{Dict, lookup, insert}
use rebekah.Prelude.Exec.{ok}
use rebekah.Json.{Json, str, int, object, get}
use rebekah.Json.Canonical.{canonical, insert_field}
use rebekah.Prelude.Sort.{text_lt}
use rebekah.Regex.{is_hex}
use rebekah.Oci.Act.{checked, act_ok}
use rebekah.Oci.Refusal.{Checked}
use rebekah.Oci.Disk.{Bytes}
use rebekah.Oci.Handoff.{validate, valid_digest}
use rebekah.Oci.Publish.{
  Codec, Layout, blob, encode, publish, digest_text, manifest_of, listing_of, new_index, appended,
  handoff, described, oci_empty,
}
use rebekah.Oci.Verify.{item, read_desc, open_manifest, handoffs, verify, loads}
use rebekah.Oci.Canonical.{validate-canonical}
use rebekah.Oci.Blobs.{Has, Wrote, blob-Wrote, encode_ok, Entered, enter_new}

module _ (c : Codec) where
  -- What the program relies on: hashes of 64 hexadecimal digits, and a text that reads back.
  pub record IsFaithful : Type 0 where
    pub hashes : (bs : Bytes) → (length (c.sha256 bs) ≡ 64) × (all is_hex (c.sha256 bs) ≡ true)
    pub reads_back :
        (v : Json) (bs : Bytes) → c.encoded v ≡ some bs → c.loads bs ≡ some (canonical v)

  module _ (faithful : IsFaithful) where
    valid_digest_text : (bs : Bytes) → valid_digest (str (digest_text (c.sha256 bs))) ≡ true
    unfolding valid_digest
    valid_digest_text bs = let (long, hex) = faithful.hashes bs in rw hex (ground arith)

    read_desc_found :
        (l : Layout) (desc : Json) (bs : Bytes)
        → item desc (codes "digest") ≡ ok (str (digest_text (c.sha256 bs)))
        → item desc (codes "size") ≡ ok (int (pos (length bs)))
        → Has c l bs
        → read_desc c l desc ≡ ok bs
    unfolding read_desc
    read_desc_found l desc bs e f h =
        rw
          (
            e,
            valid_digest_text bs,
            h,
            f,
            text_eq_refl (c.sha256 bs),
            (==_iff (length bs) (length bs)).1 refl,
          )
          refl

    read_described :
        (media : Text) (bs : Bytes) (l : Layout)
        → Has c l bs
        → read_desc c l
            (canonical (object (described media (digest_text (c.sha256 bs)) (length bs))))
          ≡ ok bs
    unfolding item canonical insert_field text_lt text_eq lookup
    read_described media bs l h = read_desc_found l _ bs refl refl h

    read_listing :
        (bs : Bytes) (l : Layout)
        → Has c l bs
        → read_desc c l (canonical (listing_of (digest_text (c.sha256 bs), length bs))) ≡ ok bs
    unfolding item canonical insert_field text_lt text_eq lookup
    read_listing bs l h = read_desc_found l _ bs refl refl h

    open_manifest_lem :
        (l : Layout) (v : Json) (payload config : Bytes)
        → Has c l payload
        → Has c l config
        → c.loads payload ≡ some (canonical v)
        → validate v ≡ ok tt
        → open_manifest c l (
            canonical (
              manifest_of
                (digest_text (c.sha256 payload), length payload)
                (digest_text (c.sha256 config), length config)))
          ≡ ok (canonical v)
    unfolding open_manifest item canonical insert_field text_lt text_eq lookup get loads
    open_manifest_lem l v payload config h h' back valid =
        rw
          (
            read_described oci_empty config l h',
            read_described handoff payload l h,
            back,
            validate-canonical v,
            valid,
          )
          refl

    -- Reading an index that lists the manifest alone.
    verify_lem :
        (l : Layout) (bytes manifest : Bytes) (m : Json)
        → l.index ≡ some bytes
        → c.loads bytes
          ≡ some (
              canonical (
                appended false new_index []
                  (listing_of (digest_text (c.sha256 manifest), length manifest))))
        → Has c l manifest
        → c.loads manifest ≡ some m
        → verify c l ≡ open_manifest c l m
    unfolding verify loads canonical insert insert_field text_lt text_eq lookup get handoffs
    verify_lem l bytes manifest m found back h manifest_back =
        rw (found, back, read_listing manifest l h, manifest_back) refl

    -- What the steps of a publication leave.
    published_lem :
        (v : Json) (payload manifest : Bytes) (p q d : Text × ℕ) (m0 m1 m2 m3 m4 m5 l' : Layout)
        → validate v ≡ ok tt
        → (c.encoded v ≡ some payload) × (m1 ≡ m0)
        → Wrote c payload m1 m2 p
        → Wrote c (codes "{}") m2 m3 q
        → (c.encoded (manifest_of p q) ≡ some manifest) × (m4 ≡ m3)
        → Wrote c manifest m4 m5 d
        → Entered c d m5 l'
        → verify c l' ≡ ok (canonical v)
    published_lem v payload manifest p q d m0 m1 m2 m3 m4 m5 l' valid encodes wp wq encodes' wd
          entered =
        let to_end = λ (bs : Bytes) (h : Has c m5 bs).
          subst (λ (bl : Dict Bytes). lookup (c.sha256 bs) bl ≡ some bs) (sym entered.3) h in
        let on = λ (bs : Bytes) (h : Has c m3 bs).
          to_end bs (wd.kept bs (subst (λ m. Has c m bs) (sym encodes'.1) h)) in
        let named =
          subst (λ x. c.encoded (appended false new_index [] (listing_of x)) ≡ some entered.0)
            wd.named entered.1 in
        let manifest_text =
          subst
            (λ x.
              c.encoded (manifest_of x (digest_text (c.sha256 (codes "{}")), length (codes "{}")))
              ≡ some manifest)
            wp.named
            (subst (λ x. c.encoded (manifest_of p x) ≡ some manifest) wq.named encodes'.0) in
        verify_lem l' entered.0 manifest _ entered.2 (faithful.reads_back _ _ named)
          (to_end manifest wd.there) (faithful.reads_back _ _ manifest_text)
        ∙ open_manifest_lem l' v payload (codes "{}") (on payload (wq.kept payload wp.there))
            (on (codes "{}") wq.there) (faithful.reads_back _ _ encodes.0) valid

    -- A record that was published to a layout with no index yet is verified there, and comes back
    -- as it was, with the keys of its dicts in order. The hashes are 64 hexadecimal digits, and
    -- what is encoded can be read back.
    pub verify-publish :
        (v : Json) (l l' : Layout) (digest : Text)
        → l.index ≡ none
        → publish c v l ≡ (ok digest, l')
        → verify c l' ≡ ok (canonical v)
    unfolding publish
    verify-publish v l l' digest none_yet e =
        let (u, m0, valid, e0) = act_ok (checked (validate v)) _ l l' e in
        let (payload, m1, encodes, e1) = act_ok (encode c v) _ m0 l' e0 in
        let (p, m2, blobs_p, e2) = act_ok (blob c payload) _ m1 l' e1 in
        let (q, m3, blobs_q, e3) = act_ok (blob c (codes "{}")) _ m2 l' e2 in
        let (manifest, m4, encodes', e4) = act_ok (encode c (manifest_of p q)) _ m3 l' e3 in
        let (d, m5, blobs_d, e5) = act_ok (blob c manifest) _ m4 l' e4 in
        let wp = blob-Wrote c payload m1 m2 p blobs_p in
        let wq = blob-Wrote c (codes "{}") m2 m3 q blobs_q in
        let wd = blob-Wrote c manifest m4 m5 d blobs_d in
        let enc = encode_ok c v m0 m1 payload encodes in
        let enc' = encode_ok c (manifest_of p q) m3 m4 manifest encodes' in
        let at_index = λ (x : Layout). x.index in
        let before : m5.index ≡ none =
          wd.index
          ∙ ap at_index enc'.1
          ∙ wq.index
          ∙ wp.index
          ∙ ap at_index enc.1
          ∙ ap (λ (x : Checked (Unit {0}) × Layout). x.1.index) (sym valid)
          ∙ none_yet in
        published_lem v payload manifest p q d m0 m1 m2 m3 m4 m5 l' (cc valid) enc wp wq enc' wd
          (enter_new c d m5 l' digest before e5).1
