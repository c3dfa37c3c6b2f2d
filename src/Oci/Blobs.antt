-- ===== src/Oci/Blobs.antt =====
-- What the steps of `publish` of tools/oci_handoff.py leave in the files.
use rebekah.Prelude.{
  ℕ, ◌≡◌, refl, ap, sym, ◌∙◌, false, Option, none, some, [], length, arith, Bool-cases, inl, inr,
}
use mathlib.Core.Path.{subst}
use rebekah.Prelude.Text.{Text, codes, text_eq, text_eq_iff, text_eq_refl}
use rebekah.Prelude.Dict.{lookup, insert, lookup-insert}
use rebekah.Prelude.Exec.{ok, err}
use rebekah.Json.{Json}
use rebekah.Oci.Act.{act_ok}
use rebekah.Oci.Refusal.{refused, Checked}
use rebekah.Oci.Disk.{Bytes}
use rebekah.Oci.Publish.{
  Codec, Layout, blob, encode, loaded, enter, enter_with, digest_text, listing_of, new_index,
  appended, lists_digest, layout_value, check_layout, is_other,
}

module _ (c : Codec) where
  -- The blob that is named by a hash of its bytes.
  abbrev pub Has : Layout → Bytes → Type 0
  Has l bs = lookup (c.sha256 bs) l.blobs ≡ some bs

  pub record Wrote (bs : Bytes) (l l' : Layout) (d : Text × ℕ) : Type 0 where
    pub there : Has l' bs
    pub kept : (other : Bytes) → Has l other → Has l' other
    pub named : d ≡ (digest_text (c.sha256 bs), length bs)
    pub index : l'.index ≡ l.index
    pub layout : l'.layout ≡ l.layout

  is_other-false :
      (o : Option Bytes) (bs other : Bytes) → o ≡ some other → is_other o bs ≡ false → bs ≡ other
  is_other-false none bs other e n = cc
  is_other-false (some x) bs other e n = ground (arith, text_eq_iff x bs)

  pub written : (bs : Bytes) (l : Layout) → Layout
  written bs l = record l { blobs = insert (c.sha256 bs) bs l.blobs }

  written-Has : (bs : Bytes) (l : Layout) → Has (written bs l) bs
  unfolding written
  written-Has bs l = rw (lookup-insert, text_eq_refl) refl

  written-kept :
      (bs other : Bytes) (l : Layout)
      → is_other (lookup (c.sha256 bs) l.blobs) bs ≡ false
      → Has l other
      → Has (written bs l) other
  unfolding written
  written-kept bs other l n h =
      rw lookup-insert (elim (Bool-cases (text_eq (c.sha256 bs) (c.sha256 other))) [
        | inl e ↦
            let name = (text_eq_iff (c.sha256 bs) (c.sha256 other)).0 e in
            rw e (
              ap (λ x. some x)
                (is_other-false (lookup (c.sha256 bs) l.blobs) bs other
                  (ap (λ k. lookup k l.blobs) name ∙ h) n))
        | inr e ↦ rw e h
      ])

  pub blob-Wrote :
      (bs : Bytes) (l l' : Layout) (d : Text × ℕ) → blob c bs l ≡ (ok d, l') → Wrote bs l l' d
  unfolding blob written
  blob-Wrote bs l l' d e = elim (Bool-cases (is_other (lookup (c.sha256 bs) l.blobs) bs)) [
    | inl n ↦ absurd (cc (e, n))
    | inr n ↦
        let blob_ok : blob c bs l ≡ (ok (digest_text (c.sha256 bs), length bs), written bs l) =
          rw n refl in
        let same : (ok (digest_text (c.sha256 bs), length bs), written bs l) ≡ (ok d, l') =
          sym blob_ok ∙ e in
        let files : written bs l ≡ l' = cc same in
        record {
          there = subst (λ m. Has m bs) files (written-Has bs l);
          kept = λ other h. subst (λ m. Has m other) files (written-kept bs other l n h);
          named = cc same;
          index = ap (λ (m : Layout). m.index) (sym files);
          layout = ap (λ (m : Layout). m.layout) (sym files);
        }
  ]

  pub encode_ok :
      (v : Json) (l l' : Layout) (bs : Bytes)
      → encode c v l ≡ (ok bs, l')
      → (c.encoded v ≡ some bs) × (l' ≡ l)
  unfolding encode
  encode_ok v l l' bs e = by_text (c.encoded v) refl e
    where
      by_text :
          (o : Option Bytes)
          → c.encoded v ≡ o
          → elim o as (λ _. Checked Bytes × Layout) [
            | none ↦ (err (refused (codes "unencodable")), l)
            | some x ↦ (ok x, l)
          ]
            ≡ (ok bs, l')
          → (c.encoded v ≡ some bs) × (l' ≡ l)
      by_text none f g = absurd (cc g)
      by_text (some x) f g = (cc (f, g), cc g)

  loaded_keeps : (bs : Bytes) (l l' : Layout) (v : Json) → loaded c bs l ≡ (ok v, l') → l' ≡ l
  unfolding loaded
  loaded_keeps bs l l' v e = by_value (c.loads bs) e
    where
      by_value :
          (o : Option Json)
          → elim o as (λ _. Checked Json × Layout) [
            | none ↦ (err (refused (codes "invalid JSON")), l)
            | some x ↦ (ok x, l)
          ]
            ≡ (ok v, l')
          → l' ≡ l
      by_value none g = absurd (cc g)
      by_value (some x) g = cc g

  check_layout_keeps :
      (o : Option Bytes) (l l' : Layout) {u : Unit {0}} → check_layout c o l ≡ (ok u, l') → l' ≡ l
  check_layout_keeps none l l' e = cc e
  check_layout_keeps (some bs) l l' e =
      let (v, m, loads_v, e1) = act_ok (loaded c bs) _ l l' e in
      ap (λ (x : Checked (Unit {0}) × Layout). x.1) (sym e1) ∙ loaded_keeps bs l m v loads_v

  -- A new index lists the manifest alone, and the blobs stay.
  abbrev pub Entered : Text × ℕ → Layout → Layout → Type 0
  Entered d l l' =
      (bytes : Bytes) × (c.encoded (appended false new_index [] (listing_of d)) ≡ some bytes)
      × (l'.index ≡ some bytes)
      × (l'.blobs ≡ l.blobs)

  pub enter_new :
      (d : Text × ℕ) (l l' : Layout) (digest : Text)
      → l.index ≡ none
      → enter c d l ≡ (ok digest, l')
      → (digest ≡ d.0) × Entered d l l'
  unfolding enter enter_with lists_digest
  enter_new d l l' digest none_yet e =
      let e1 : enter_with c l.layout none d l ≡ (ok digest, l') =
        subst (λ o. enter_with c l.layout o d l ≡ (ok digest, l')) none_yet e in
      let (u, m, checks, e2) = act_ok (check_layout c l.layout) _ l l' e1 in
      let (layout, m2, encodes, e3) = act_ok (encode c layout_value) _ m l' e2 in
      let (bytes, m3, encodes', e4) =
        act_ok (encode c (appended false new_index [] (listing_of d))) _
          (record m2 { layout = some layout }) l' e3 in
      let m2_m = (encode_ok layout_value m m2 layout encodes).1 in
      let (printed, m3_m2) =
        encode_ok (appended false new_index [] (listing_of d)) _ m3 bytes encodes' in
      let files : record m3 { index = some bytes } ≡ l' = cc e4 in
      let blobs = λ (x : Layout). x.blobs in
      (
        cc e4,
        (
          bytes,
          printed,
          ap (λ (x : Layout). x.index) (sym files),
          ap blobs (sym files)
              ∙ ap blobs m3_m2
              ∙ ap blobs m2_m
              ∙ ap blobs (check_layout_keeps l.layout l m checks),
        ),
      )
