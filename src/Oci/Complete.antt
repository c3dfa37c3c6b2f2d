-- ===== src/Oci/Complete.antt =====
-- The blobs that `acquire` of tools/oci_registry_acquire.py collects.
use rebekah.Json.{Json}
use rebekah.Prelude.{
  All, none, ℕ, ◌+◌, ◌≤◌, ◌≡◌, refl, ap, ◌∙◌, true, ◌&&◌, ◌==◌, leb, leb→le, Option, some, List, [],
  ◌∷◌, length, arith, Bool-cases, inl, inr, is_some, take,
}
use mathlib.Core.Path.{subst}
use rebekah.Prelude.Text.{Text, codes, text_eq, text_eq_iff, text_eq_refl}
use rebekah.Prelude.Dict.{Dict, lookup, insert, lookup-insert}
use rebekah.Prelude.Exec.{ok}
use rebekah.Oci.Refusal.{bind_ok, ensure, ensure_ok}
use rebekah.Oci.Act.{act_ok}
use rebekah.Oci.Disk.{Bytes, Host, Descriptor, hex_of, is_digest}
use rebekah.Oci.Registry.{Origin}
use rebekah.Oci.Connection.{Net, Reply, connection, get_reply}
use rebekah.Oci.Fetch.{manifest_type, length_passes}
use rebekah.Oci.Plan.{
  plan, accept_blob, max_total, sum_sizes, image_manifest, descriptors_of, agree, unique_from,
  values_of, within_limit,
}
use rebekah.Oci.Acquire.{Tree, fetch_blob, fetch_all}

abbrev pub total_bytes : Dict Bytes → ℕ
total_bytes [] = 0
total_bytes ((k, bs) ∷ d) = length bs + total_bytes d

total_bytes-insert :
    (k : Text) (bs : Bytes) (d : Dict Bytes)
    → total_bytes (insert k bs d) ≤ length bs + total_bytes d
unfolding insert
total_bytes-insert k bs [] = omega arith
total_bytes-insert k bs ((j, w) ∷ d) = ground (arith, total_bytes-insert k bs d)

module _ (h : Host) where
  -- Every blob has the hash that it is named by.
  abbrev pub Hashed : Dict Bytes → Type 0
  Hashed blobs = (k : Text) (bs : Bytes) → lookup k blobs ≡ some bs → h.sha256 bs ≡ hex_of k

  -- A blob of a layout, by its descriptor.
  abbrev pub IsHeld : Dict Bytes → Descriptor → Type 0
  IsHeld blobs d = is_some (lookup d.digest blobs) ≡ true

  -- The manifest that the registry sent under its digest, and the descriptors of its configuration
  -- and of its layers, each of which has its blob.
  pub record IsCovered (digest : Text) (blobs : Dict Bytes) : Type 0 where
    pub payload : Bytes
    pub named : h.sha256 payload ≡ hex_of digest
    pub manifest : Dict Json
    pub parsed : image_manifest h payload ≡ ok manifest
    pub descriptors : List Descriptor
    pub read : descriptors_of manifest ≡ ok descriptors
    pub held : All (IsHeld blobs) descriptors

  -- A complete layout: the blobs have their hashes, the manifest that the index lists is one of
  -- them, so are the configuration and every layer of that manifest, and together the blobs are at most
  -- 256 MiB.
  pub record IsComplete (digest : Text) (tree : Tree) : Type 0 where
    pub hashed : Hashed tree.blobs
    pub lists : tree.listed ≡ digest
    pub holds : (bs : Bytes) × (lookup digest tree.blobs ≡ some bs)
    pub covered : IsCovered digest tree.blobs
    pub bounded : total_bytes tree.blobs ≤ 268435456

  insert-Hashed :
      (k : Text) (bs : Bytes) (d : Dict Bytes)
      → h.sha256 bs ≡ hex_of k
      → Hashed d
      → Hashed (insert k bs d)
  insert-Hashed k bs d e before j bs' f = elim (Bool-cases (text_eq k j)) [
    | inl same ↦
        let here : some bs ≡ some bs' = ground (arith, lookup-insert k j bs d) in
        subst (λ x. h.sha256 x ≡ hex_of j) (cc here) (e ∙ ap hex_of ((text_eq_iff k j).0 same))
    | inr other ↦ before j bs' (ground (arith, lookup-insert k j bs d))
  ]

  insert-has :
      (k j : Text) (bs : Bytes) (d : Dict Bytes)
      → is_some (lookup j d) ≡ true
      → is_some (lookup j (insert k bs d)) ≡ true
  insert-has k j bs d e = ground (arith, lookup-insert k j bs d)

  insert-here : (k : Text) (bs : Bytes) (d : Dict Bytes) → is_some (lookup k (insert k bs d)) ≡ true
  insert-here k bs d = ground (arith, lookup-insert k k bs d, text_eq_refl k)

  accept_blob_lem :
      (d : Descriptor) (r : Reply) (bs : Bytes)
      → accept_blob h d r ≡ ok bs
      → (length bs ≡ d.size) × (h.sha256 bs ≡ hex_of d.digest)
  unfolding accept_blob
  accept_blob_lem d r bs e =
      let payload = take (d.size + 1) r.body in
      let (_, _, e1) =
        bind_ok (ensure (r.status == 200) (codes "redirects are not followed")) _ e in
      let (_, _, e2) =
        bind_ok
          (ensure (length_passes _ r.content_length) (codes "OCI blob Content-Length mismatch")) _
          e1 in
      let (_, good, e3) =
        bind_ok
          (ensure (length payload == d.size && text_eq (h.sha256 payload) (hex_of d.digest))
            (codes "OCI blob size or SHA-256 mismatch"))
          _ e2 in
      let both = ensure_ok _ _ good in
      subst (λ x. (length x ≡ d.size) × (h.sha256 x ≡ hex_of d.digest)) {x = payload} {y = bs}
        (cc e3) (ground arith, ground (arith, text_eq_iff (h.sha256 payload) (hex_of d.digest)))

  -- Every descriptor stands under its digest.
  abbrev Keyed : Dict Descriptor → Type 0
  Keyed u = (k : Text) (d : Descriptor) → lookup k u ≡ some d → d.digest ≡ k

  nil-Keyed : Keyed []
  unfolding lookup
  nil-Keyed k d e = absurd (cc e)

  unique_from-Keyed :
      (u : Dict Descriptor) (ds : List Descriptor) → Keyed u → Keyed (unique_from u ds)
  unfolding unique_from
  unique_from-Keyed u [] keyed = keyed
  unique_from-Keyed u (d ∷ ds) keyed = unique_from-Keyed (insert d.digest d u) ds inserted
    where
      inserted : Keyed (insert d.digest d u)
      inserted k e f = elim (Bool-cases (text_eq d.digest k)) [
        | inl same ↦
            let here : some d ≡ some e = ground (arith, lookup-insert d.digest k d u) in
            subst (λ x. x.digest ≡ k) {x = d} {y = e} (cc here) ((text_eq_iff d.digest k).0 same)
        | inr other ↦ keyed k e (ground (arith, lookup-insert d.digest k d u))
      ]

  lookup-values_of :
      (P : Descriptor → Type 0) (u : Dict Descriptor) (k : Text) (d : Descriptor)
      → All P (values_of u)
      → lookup k u ≡ some d
      → P d
  unfolding lookup
  lookup-values_of P [] k d all e = absurd (cc e)
  lookup-values_of P ((j, c) ∷ u) k d all e = elim (Bool-cases (text_eq j k)) [
    | inl same ↦
        let here : some c ≡ some d = ground arith in subst P {x = c} {y = d} (cc here) all.0
    | inr other ↦ lookup-values_of P u k d all.1 (ground arith)
  ]

  -- Descriptors that agree with the dict have their blobs where all of the dict have.
  agree-IsHeld :
      (blobs : Dict Bytes) (u : Dict Descriptor) (ds : List Descriptor)
      → Keyed u
      → All (IsHeld blobs) (values_of u)
      → agree u ds ≡ true
      → All (IsHeld blobs) ds
  unfolding agree
  agree-IsHeld blobs u [] keyed held e = tt
  agree-IsHeld blobs u (d ∷ ds) keyed held e = (
    one (lookup d.digest u) refl (ground arith),
    agree-IsHeld blobs u ds keyed held (ground arith),
  )
    where
      one : (o : Option Descriptor) → lookup d.digest u ≡ o → is_some o ≡ true → IsHeld blobs d
      one none f s = absurd (cc s)
      one (some c) f s =
          subst (λ k. is_some (lookup k blobs) ≡ true) (keyed d.digest c f)
            (lookup-values_of (IsHeld blobs) u d.digest c held f)

  -- What the plan of a manifest rests on.
  pub record IsPlanned (digest : Text) (found : Bytes × Text) (wanted : List Descriptor × ℕ)
      : Type 0 where
    pub hash : h.sha256 found.0 ≡ hex_of digest
    pub small : length found.0 + sum_sizes wanted.0 ≤ 268435456
    pub manifest : Dict Json
    pub parsed : image_manifest h found.0 ≡ ok manifest
    pub descriptors : List Descriptor
    pub read : descriptors_of manifest ≡ ok descriptors
    pub fetches :
        (blobs : Dict Bytes) → All (IsHeld blobs) wanted.0 → All (IsHeld blobs) descriptors

  pub plan_lem :
      (digest : Text) (found : Bytes × Text) (wanted : List Descriptor × ℕ)
      → plan h digest found ≡ ok wanted
      → IsPlanned digest found wanted
  unfolding plan within_limit
  plan_lem digest found wanted e =
      let (_, _, e1) =
        bind_ok
          (ensure (text_eq found.1 manifest_type)
            (codes "only single OCI image manifests supported"))
          _ e in
      let (_, good, e2) =
        bind_ok
          (ensure (is_digest digest && text_eq (h.sha256 found.0) (hex_of digest))
            (codes "OCI manifest SHA-256 mismatch"))
          _ e1 in
      let (manifest, parsed, e3) = bind_ok (image_manifest h found.0) _ e2 in
      let (ds, read, e4) = bind_ok (descriptors_of manifest) _ e3 in
      let (_, agreed, e5) =
        bind_ok
          (ensure (agree (unique_from [] ds) ds) (codes "conflicting descriptors for same digest"))
          _ e4 in
      let (_, small, e6) =
        bind_ok
          (ensure (leb (length found.0 + sum_sizes (values_of (unique_from [] ds))) max_total)
            (codes "OCI layout exceeds aggregate size limit"))
          _ e5 in
      let both = ensure_ok _ _ good in
      let unique = unique_from [] ds in
      subst (IsPlanned digest found)
        {x = (values_of unique, length found.0 + sum_sizes (values_of unique))} {y = wanted} (cc e6)
        (record {
          hash = ground (arith, text_eq_iff (h.sha256 found.0) (hex_of digest));
          small = leb→le _ _ (ensure_ok _ _ small);
          manifest = manifest;
          parsed = parsed;
          descriptors = ds;
          read = read;
          fetches = λ blobs held.
              agree-IsHeld blobs unique ds (unique_from-Keyed [] ds nil-Keyed) held
                (ensure_ok _ _ agreed);
        })

  module _ (urlsplit : Text → Option Origin) (registry repository : Text) where
    fetch_blob_lem :
        (d : Descriptor) (net m : Net) (bs : Bytes)
        → fetch_blob h urlsplit registry repository d net ≡ (ok bs, m)
        → (length bs ≡ d.size) × (h.sha256 bs ≡ hex_of d.digest)
    unfolding fetch_blob
    fetch_blob_lem d net m bs e =
        let (pin, m1, _, e1) =
          act_ok (connection urlsplit registry repository d.digest) _ net m e in
        let (r, m2, _, e2) = act_ok (get_reply pin _) _ m1 m e1 in accept_blob_lem d r bs (cc e2)

    pub fetch_all_lem :
        (ds : List Descriptor) (blobs all : Dict Bytes) (net m : Net)
        → fetch_all h urlsplit registry repository ds blobs net ≡ (ok all, m)
        → Hashed blobs
        → Hashed all
          × (total_bytes all ≤ total_bytes blobs + sum_sizes ds)
          × ((k : Text) → is_some (lookup k blobs) ≡ true → is_some (lookup k all) ≡ true)
          × All (IsHeld all) ds
    unfolding fetch_all
    fetch_all_lem [] blobs all net m e before =
        subst
          (λ x.
            Hashed x
            × (total_bytes x ≤ total_bytes blobs + 0)
            × ((k : Text) → is_some (lookup k blobs) ≡ true → is_some (lookup k x) ≡ true)
            × Unit {0})
          {x = blobs} {y = all} (cc e) (before, omega arith, (λ k f. f), tt)
    fetch_all_lem (d ∷ ds) blobs all net m e before =
        let (bs, m1, fetched, e1) =
          act_ok (fetch_blob h urlsplit registry repository d) _ net m e in
        let (long, hash) = fetch_blob_lem d net m1 bs fetched in
        let (hashed, bound, there, held) =
          fetch_all_lem ds (insert d.digest bs blobs) all m1 m e1
            (insert-Hashed d.digest bs blobs hash before) in
        (
          hashed,
          omega (arith, bound, long, total_bytes-insert d.digest bs blobs),
          (λ k f. there k (insert-has d.digest k bs blobs f)),
          (there d.digest (insert-here d.digest bs blobs), held),
        )

  pub manifest_alone :
      (digest : Text) (payload : Bytes)
      → h.sha256 payload ≡ hex_of digest
      → Hashed ((digest, payload) ∷ [])
  unfolding lookup
  manifest_alone digest payload e k bs f = elim (Bool-cases (text_eq digest k)) [
    | inl same ↦
        let here : some payload ≡ some bs = ground arith in
        subst (λ x. h.sha256 x ≡ hex_of k) (cc here) (e ∙ ap hex_of ((text_eq_iff digest k).0 same))
    | inr other ↦ absurd (ground arith)
  ]

  pub manifest_there :
      (digest : Text) (payload : Bytes) → is_some (lookup digest ((digest, payload) ∷ [])) ≡ true
  unfolding lookup
  manifest_there digest payload = rw (text_eq_refl digest) refl
