-- ===== src/Oci/Integrity.antt =====
-- What an inspection of tools/oci_inspect.py has verified of the files, and what it has not.
use rebekah.Prelude.{
  ℕ, ◌+◌, ◌≤◌, ◌≡◌, refl, true, false, not, ◌&&◌, ◌||◌, ◌==◌, Option, none, some, List, [], ◌∷◌,
  map, arith, All, take, length,
}
use mathlib.Core.Path.{subst}
use rebekah.Prelude.Text.{Text, codes, text_eq, text_eq_iff}
use rebekah.Prelude.Exec.{ok}
use rebekah.Json.{Json, null, boolean, int, float, str, arr, obj, as_dict, get}
use rebekah.Oci.Refusal.{each, ensure, require, bind_ok, ensure_ok, ensure-not, require_ok}
use rebekah.Oci.Disk.{
  Bytes, Host, Disk, Descriptor, is_digest, digest_of, natural, at_most, filled, hex_of,
  descriptor_of, read_blob, read, object_of,
}
use rebekah.Oci.Inspect.{
  Artifact, no_subject, max_manifest, max_blob, subject_of, layers_of, artifact_of,
}

module _ (h : Host) (disk : Disk) where
  -- The blob that a descriptor names is a regular file of the announced size, below no symbolic
  -- link, and its bytes have the announced digest.
  pub record IsVerified (limit : ℕ) (d : Descriptor) : Type 0 where
    pub named : is_digest d.digest ≡ true
    pub bounded : d.size ≤ limit
    pub regular : (disk.blob (hex_of d.digest)).is_file ≡ true
    pub unlinked :
        (disk.blobs_is_symlink ≡ false)
        × (disk.sha256_is_symlink ≡ false)
        × ((disk.blob (hex_of d.digest)).is_symlink ≡ false)
    pub sized : (disk.blob (hex_of d.digest)).stat_size ≡ d.size
    pub hashed :
        (payload : Bytes) × (payload ≡ take (limit + 1) (disk.blob (hex_of d.digest)).content)
        × (length payload ≡ d.size)
        × (h.sha256 payload ≡ hex_of d.digest)

  digest_of-digest : (v : Json) (s : Text) → digest_of v ≡ some s → is_digest s ≡ true
  digest_of-digest (str t) s e = ground arith
  digest_of-digest null s e = cc
  digest_of-digest (boolean b) s e = cc
  digest_of-digest (int n) s e = cc
  digest_of-digest (float t) s e = cc
  digest_of-digest (arr vs) s e = cc
  digest_of-digest (obj fs) s e = cc

  at_most-le : (limit : ℕ) (o : Option ℕ) (n : ℕ) → at_most limit o ≡ some n → n ≤ limit
  at_most-le limit none n e = absurd (cc e)
  at_most-le limit (some m) n e = ground arith

  descriptor_of_lem :
      (limit : ℕ) (v : Json) (d : Descriptor)
      → descriptor_of limit v ≡ ok d
      → (is_digest d.digest ≡ true) × (d.size ≤ limit)
  unfolding descriptor_of
  descriptor_of_lem limit v d e =
      let (fields, _, e1) = bind_ok (require (as_dict v) (codes "invalid OCI descriptor")) _ e in
      let (digest, some_digest, e2) =
        bind_ok (require (digest_of (get fields (codes "digest"))) (codes "unsupported OCI digest"))
          _ e1 in
      let (media, _, e3) =
        bind_ok
          (require (filled (get fields (codes "mediaType")))
            (codes "invalid OCI descriptor media type"))
          _ e2 in
      let (size, some_size, e4) =
        bind_ok
          (require (at_most limit (natural (get fields (codes "size"))))
            (codes "invalid OCI blob size"))
          _ e3 in
      subst (λ (x : Descriptor). (is_digest x.digest ≡ true) × (x.size ≤ limit))
        {x = record { digest = digest; size = size; media_type = media }} {y = d} (cc e4)
        (
          digest_of-digest (get fields (codes "digest")) digest (require_ok _ _ some_digest),
          at_most-le limit (natural (get fields (codes "size"))) size (require_ok _ _ some_size),
        )

  read_blob-IsVerified :
      (limit : ℕ) (d : Descriptor) (payload : Bytes)
      → is_digest d.digest ≡ true
      → d.size ≤ limit
      → read_blob h disk limit d ≡ ok payload
      → IsVerified limit d
  unfolding read_blob
  read_blob-IsVerified limit d payload named bounded e =
      let node = disk.blob (hex_of d.digest) in
      let (_, safe, e1) =
        bind_ok
          (ensure
            (not (
              disk.blobs_is_symlink
              || disk.sha256_is_symlink
              || node.is_symlink
              || not node.is_file))
            (codes "missing or unsafe OCI blob"))
          _ e in
      let (_, sized, e2) =
        bind_ok (ensure (node.stat_size == d.size) (codes "OCI blob size mismatch")) _ e1 in
      let (_, hashed, e3) =
        bind_ok
          (ensure
            (length (take (limit + 1) node.content) == d.size
              && text_eq (h.sha256 (take (limit + 1) node.content)) (hex_of d.digest))
            (codes "OCI blob digest mismatch"))
          _ e2 in
      let unsafe = ensure-not _ _ safe in
      let same_size = ensure_ok _ _ sized in
      let same = ensure_ok _ _ hashed in
      record {
        named = named;
        bounded = bounded;
        regular = ground arith;
        unlinked = (ground arith, ground arith, ground arith);
        sized = ground arith;
        hashed = (
          take (limit + 1) node.content,
          refl,
          ground arith,
          ground (arith, text_eq_iff (h.sha256 (take (limit + 1) node.content)) (hex_of d.digest)),
        );
      }

  pub read-IsVerified :
      (limit : ℕ) (v : Json) (found : Descriptor × Bytes)
      → read h disk limit v ≡ ok found
      → IsVerified limit found.0
  unfolding read
  read-IsVerified limit v found e =
      let (d, some_d, e1) = bind_ok (descriptor_of limit v) _ e in
      let (payload, got, e2) = bind_ok (read_blob h disk limit d) _ e1 in
      let (named, bounded) = descriptor_of_lem limit v d some_d in
      subst (λ (x : Descriptor × Bytes). IsVerified limit x.0) {x = (d, payload)} {y = found}
        (cc e2) (read_blob-IsVerified limit d payload named bounded got)

  -- The manifest of an artifact and all of its layers are verified.
  pub record AreVerified (a : Artifact) : Type 0 where
    pub manifest : IsVerified max_manifest a.own
    pub blobs : All (IsVerified max_blob) a.layers

  each_read :
      (vs : List Json) (found : List (Descriptor × Bytes))
      → each (read h disk max_blob) vs ≡ ok found
      → All (IsVerified max_blob) (map (λ (b : Descriptor × Bytes). b.0) found)
  unfolding each
  each_read vs [] e = tt
  each_read [] (b ∷ bs) e = absurd (cc e)
  each_read (v ∷ vs) (b ∷ bs) e =
      let (b', one, e1) = bind_ok (read h disk max_blob v) _ e in
      let (bs', others, e2) = bind_ok (each (read h disk max_blob) vs) _ e1 in
      subst
        (λ (xs : List (Descriptor × Bytes)).
          All (IsVerified max_blob) (map (λ (x : Descriptor × Bytes). x.0) xs))
        {x = b' ∷ bs'} {y = b ∷ bs} (cc e2)
        (read-IsVerified max_blob v b' one, each_read vs bs' others)

  pub artifact_of-AreVerified :
      (v : Json) (a : Artifact) → artifact_of h disk v ≡ ok a → AreVerified a
  unfolding artifact_of
  artifact_of-AreVerified v a e =
      let (found, got, e1) = bind_ok (read h disk max_manifest v) _ e in
      let (manifest, _, e2) = bind_ok (object_of h (codes "manifest") found.1) _ e1 in
      let (layers, _, e3) =
        bind_ok (require (layers_of manifest) (codes "invalid OCI manifest")) _ e2 in
      let (config, _, e4) = bind_ok (read h disk max_blob (get manifest (codes "config"))) _ e3 in
      let (blobs, read_all, e5) = bind_ok (each (read h disk max_blob) layers) _ e4 in
      let (subject, _, e6) = bind_ok (subject_of (get manifest (codes "subject"))) _ e5 in
      subst AreVerified
        {x = record {
          own = found.0;
          artifact_type = get manifest (codes "artifactType");
          subject_value = get manifest (codes "subject");
          subject = subject;
          layers = map (λ (b : Descriptor × Bytes). b.0) blobs;
          status = no_subject;
          referrers = [];
        }}
        {y = a} (cc e6)
        (record {
          manifest = read-IsVerified max_manifest v found got;
          blobs = each_read layers blobs read_all;
        })
