-- ===== src/Oci/Atomic.antt =====
-- What an acquisition of tools/oci_registry_acquire.py leaves at its destination.
use rebekah.Prelude.{
  ℕ, if◌then◌else◌, ◌≡◌, refl, sym, ap, Bool, true, false, Option, none, some, List, [], ◌∷◌,
  length, arith, Bool-cases, inl, inr, is_some, ◌⊎◌, ◌++◌, ◌∙◌,
}
use mathlib.Core.Path.{subst}
use rebekah.Prelude.Text.{Text}
use rebekah.Prelude.Dict.{Dict, lookup}
use rebekah.Prelude.Exec.{ok, err}
use rebekah.Oci.Refusal.{Checked, io_error}
use rebekah.Oci.Act.{Act, continue, ◌>>=◌, checked}
use rebekah.Oci.Disk.{Bytes, Host, Descriptor}
use rebekah.Oci.Registry.{Origin}
use rebekah.Oci.Connection.{Net}
use rebekah.Oci.Probe.{fetch_manifest}
use rebekah.Oci.Plan.{plan}
use rebekah.Oci.Acquire.{
  Site, Tree, File, files_of, Place, absent, foreign, acquired, Late, nothing, empty_directory,
  something, online, check_destination, put_in_place, fill_and_move, write_all, append_file,
  one_less, is_used_up, move_stage, move_to, check_and_move, or_discard, intrude, fetch_all,
  acquire,
}
use rebekah.Oci.Complete.{
  IsComplete, IsPlanned, plan_lem, manifest_alone, manifest_there, fetch_all_lem,
}

module _ (h : Host) where
  -- What is at the destination and on the stage: a complete layout after a success; after a
  -- failure nothing of the acquisition, whatever was fetched or written before it.
  abbrev pub NotAcquired : Place → Type 0
  NotAcquired (acquired tree) = ⊥
  NotAcquired _ = Unit

  abbrev pub Outcome : Text → Checked (Text × ℕ × ℕ) × Site → Type 0
  Outcome digest (ok report, s) =
      (tree : Tree) × (s.destination ≡ acquired (files_of tree))
      × (s.stage ≡ none)
      × IsComplete h digest tree
  Outcome digest (err e, s) =
      NotAcquired s.destination × ((s.stage ≡ none) ⊎ (s.rmtree_fails ≡ true))

  abbrev Clean : Site → Type 0
  Clean s = NotAcquired s.destination × (s.stage ≡ none)

  bind-Outcome :
      {A : Type 0} (digest : Text) (run : Act Site A) (next : A → Act Site (Text × ℕ × ℕ))
      (s : Site)
      → Clean (run s).1
      → ((a : A) (m : Site) → run s ≡ (ok a, m) → Clean m → Outcome digest (next a m))
      → Outcome digest ((run >>= next) s)
  bind-Outcome {A} digest run next s clean h = by_result (run s).0 (run s).1 refl clean
    where
      by_result :
          (r : Checked A) (m : Site) → run s ≡ (r, m) → Clean m → Outcome digest (continue r next m)
      by_result (ok a) m e c = h a m e c
      by_result (err x) m e c = (c.0, inl c.1)

  intrude-NotAcquired : (b : Bool) (p : Place) → NotAcquired p → NotAcquired (intrude b p)
  intrude-NotAcquired true absent n = tt
  intrude-NotAcquired true foreign n = tt
  intrude-NotAcquired true (acquired t) n = n
  intrude-NotAcquired false p n = n

  write_all_destination :
      (fs : List File) (s : Site) → (write_all fs s).1.destination ≡ s.destination
  unfolding write_all
  write_all_destination [] s = refl
  write_all_destination (f ∷ fs) s = ground (
    arith,
    write_all_destination fs
        (record s { fails_after = one_less s.fails_after; stage = append_file f s.stage }),
  )

  append_none : (fs : List File) → fs ++ [] ≡ fs
  append_none [] = refl
  append_none (f ∷ fs) = ap (λ x. f ∷ x) (append_none fs)

  append_one : (fs : List File) (f : File) (gs : List File) → (fs ++ f ∷ []) ++ gs ≡ fs ++ f ∷ gs
  append_one [] f gs = refl
  append_one (g ∷ fs) f gs = ap (λ x. g ∷ x) (append_one fs f gs)

  -- Where all writes succeed, the stage holds all files.
  write_all_stage :
      (fs before : List File) (s m : Site)
      → s.stage ≡ some before
      → write_all fs s ≡ (ok tt, m)
      → m.stage ≡ some (before ++ fs)
  unfolding write_all
  write_all_stage [] before s m e w =
      let q : s ≡ m = ap (λ (x : Checked (Unit {0}) × Site). x.1) w in
      ap (λ (x : Site). x.stage) (sym q) ∙ e ∙ ap some (sym (append_none before))
  write_all_stage (f ∷ fs) before s m e w = elim (Bool-cases (is_used_up s.fails_after)) [
    | inl u ↦ absurd (ground arith)
    | inr u ↦
        let t = record s { fails_after = one_less s.fails_after; stage = append_file f s.stage } in
        let here : t.stage ≡ some (before ++ f ∷ []) = ground arith in
        let rest : write_all fs t ≡ (ok tt, m) =
          subst (λ b. (if b then (err io_error, s) else write_all fs t) ≡ (ok tt, m)) u w in
        write_all_stage fs (before ++ f ∷ []) t m here rest ∙ ap some (append_one before f fs)
  ]

  module _ (digest : Text) (tree : Tree) where
    -- What a stage comes to, before it is removed after a failure.
    abbrev Ready : Checked (Unit {0}) × Site → Type 0
    Ready (ok u, s) = (s.destination ≡ acquired (files_of tree)) × (s.stage ≡ none)
    Ready (err e, s) = NotAcquired s.destination

    move_stage-Ready :
        (late : Late) (s : Site)
        → NotAcquired s.destination
        → Ready (move_stage late (some (files_of tree)) s)
    move_stage-Ready something s n = tt
    move_stage-Ready nothing s n = (refl, refl)
    move_stage-Ready empty_directory s n = (refl, refl)

    move_to-Ready :
        (p : Place) (s : Site)
        → s.stage ≡ some (files_of tree)
        → NotAcquired s.destination
        → Ready (move_to p s)
    move_to-Ready absent s e n =
        subst (λ st. Ready (move_stage s.late st s)) (sym e) (move_stage-Ready s.late s n)
    move_to-Ready foreign s e n = n
    move_to-Ready (acquired fs) s e n = n

    staged-Ready :
        (s : Site)
        → s.stage ≡ some []
        → NotAcquired s.destination
        → Ready ((write_all (files_of tree) >>= λ u. check_and_move) s)
    staged-Ready s e n =
        by_result (write_all (files_of tree) s).0 (write_all (files_of tree) s).1 refl
          (subst NotAcquired (sym (write_all_destination (files_of tree) s)) n)
      where
        by_result :
            (r : Checked (Unit {0})) (m : Site)
            → write_all (files_of tree) s ≡ (r, m)
            → NotAcquired m.destination
            → Ready (continue r (λ u. check_and_move) m)
        by_result (err x) m f k = k
        by_result (ok tt) m f k =
            let place = intrude m.appears m.destination in
            move_to-Ready place (record m { destination = place })
              (write_all_stage (files_of tree) [] s m e f)
              (intrude-NotAcquired m.appears m.destination k)

    or_discard-Outcome :
        (report : Text × ℕ × ℕ) (r : Checked (Unit {0})) (m : Site)
        → Ready (r, m)
        → IsComplete h digest tree
        → Outcome digest
            (let (r', s') = or_discard (r, m) in continue r' (λ u. checked (ok report)) s')
    or_discard-Outcome report (ok u) m k c = (tree, k.0, k.1, c)
    or_discard-Outcome report (err x) m k c = elim (Bool-cases m.rmtree_fails) [
      | inl e ↦ rw e (k, inr refl)
      | inr e ↦ rw e (k, inl refl)
    ]

    by_stage :
        (report : Text × ℕ × ℕ) (s : Site) (b : Bool)
        → Clean s
        → IsComplete h digest tree
        → Outcome digest (
            let (r, s') =
              (if b
                then (err io_error, s)
                else or_discard (fill_and_move tree (record s { stage = some [] }))) in
            continue r (λ u. checked (ok report)) s')
    by_stage report s true clean c = (clean.0, inl clean.1)
    by_stage report s false clean c =
        let run = fill_and_move tree (record s { stage = some [] }) in
        or_discard-Outcome report run.0 run.1
          (staged-Ready (record s { stage = some [] }) refl clean.0) c

    put_in_place-Outcome :
        (report : Text × ℕ × ℕ) (s : Site)
        → Clean s
        → IsComplete h digest tree
        → Outcome digest ((put_in_place tree >>= λ u. checked (ok report)) s)
    unfolding put_in_place
    put_in_place-Outcome report s clean c = by_stage report s s.mkdtemp_fails clean c

  module _ (urlsplit : Text → Option Origin) (registry repository : Text) where
    -- After a success the destination holds every file of a complete layout: each blob has the hash
    -- that it is named by, the listed manifest is one of them and so are the configuration and the
    -- layers that it names, and together they are at most 256 MiB; no stage is left. After a failure at
    -- any step, of any single write or of the rename, and of a destination that somebody else created
    -- meanwhile, nothing of the acquisition is at the destination, and no stage is left unless its
    -- removal failed.
    pub acquire-Outcome :
        (digest : Text) (s : Site)
        → NotAcquired s.destination
        → s.stage ≡ none
        → Outcome digest (acquire h urlsplit registry repository digest s)
    unfolding acquire check_destination
    acquire-Outcome digest s n no_stage =
        bind-Outcome digest check_destination _ s (n, no_stage)
          λ u m e c.
            bind-Outcome digest (online (fetch_manifest h urlsplit registry repository digest)) _ m
              c
              λ found m1 e1 c1.
                bind-Outcome digest (checked (plan h digest found)) _ m1 c1 λ wanted m2 e2 c2.
                  bind-Outcome digest
                    (online
                      (fetch_all h urlsplit registry repository wanted.0 ((digest, found.0) ∷ [])))
                    _ m2 c2
                    λ blobs m3 e3 c3. put_in_place-Outcome digest _ _ m3 c3 (
                      complete found wanted blobs m2.net m3.net
                        (plan_lem h digest found wanted (cc e2))
                        (ap (λ (x : Checked (Dict Bytes) × Site). (x.0, x.1.net)) e3))
      where
        complete :
            (found : Bytes × Text) (wanted : List Descriptor × ℕ) (blobs : Dict Bytes) (net m : Net)
            → IsPlanned h digest found wanted
            → fetch_all h urlsplit registry repository wanted.0 ((digest, found.0) ∷ []) net
              ≡ (ok blobs, m)
            → IsComplete h digest
                (record { blobs = blobs; listed = digest; listed_size = length found.0 })
        complete found wanted blobs net m planned fetched =
            let (hashed, bound, there, held) =
              fetch_all_lem h urlsplit registry repository wanted.0 ((digest, found.0) ∷ []) blobs
                net m fetched (manifest_alone h digest found.0 planned.hash) in
            record {
              hashed = hashed;
              covered = record {
                payload = found.0;
                named = planned.hash;
                manifest = planned.manifest;
                parsed = planned.parsed;
                descriptors = planned.descriptors;
                read = planned.read;
                held = planned.fetches blobs held;
              };
              lists = refl;
              holds =
                  is_there (lookup digest blobs) refl
                    (there digest (manifest_there h digest found.0));
              bounded = omega (arith, bound, planned.small);
            }
          where
            is_there :
                (o : Option Bytes)
                → lookup digest blobs ≡ o
                → is_some o ≡ true
                → (bs : Bytes) × (lookup digest blobs ≡ some bs)
            is_there none e f = absurd (cc f)
            is_there (some bs) e f = (bs, e)
