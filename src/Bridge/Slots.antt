-- ===== src/Bridge/Slots.antt =====
-- The sessions of nix/mcp-bridge.py over time, for every order in which connections come, children
-- start, fail to start and end.
use rebekah.Prelude.{
  ℕ, zero, suc, ◌+◌, ◌≡◌, refl, true, false, Bool, Option, none, some, List, [], ◌∷◌, if◌then◌else◌,
  lt→ltb, length, All, All-append, arith, Bool-cases, inl, inr,
}
use rebekah.Prelude.Int.{ℤ, int_eq, int_eq_sound}
use rebekah.Bridge.Server.{
  Session, Server, Action, refuses_uid, refuses_full, spawns, cannot_start, kills, closes,
  over_releases, Event, connection, popen, child_ends, did, acquire, admit, release, get_elem?,
  remove_at, join_at, close_session, start_child, end_child, step, run, listening,
}

pub length-remove_at :
    (i : ℕ) (xs : List Session) (x : Session)
    → get_elem? xs i ≡ some x
    → suc (length (remove_at i xs)) ≡ length xs
length-remove_at i [] x e = cc
length-remove_at zero (y ∷ ys) x e = refl
length-remove_at (suc i) (y ∷ ys) x e = omega (arith, length-remove_at i ys x e)

pub length-join_at : (i : ℕ) (xs : List Session) → length (join_at i xs) ≡ length xs
length-join_at i [] = refl
length-join_at zero (y ∷ ys) = refl
length-join_at (suc i) (y ∷ ys) = omega (arith, length-join_at i ys)

module _ (uid : ℤ) where
  -- A child is started for that uid alone, and no slot is given back twice.
  abbrev pub Proper : Action → Type 0
  Proper (spawns u) = u ≡ uid
  Proper over_releases = ⊥
  Proper _ = Unit

  abbrev pub Owned : Session → Type 0
  Owned x = x.peer ≡ uid

  pub record IsSound (s : Server) : Type 0 where
    pub allows : s.allow_uid ≡ uid
    pub counted : s.slots + length s.sessions ≡ 8
    pub owned : All Owned s.sessions
    pub proper : All Proper s.actions

  did-IsSound :
      (more : List Action) (s : Server) → All Proper more → IsSound s → IsSound (did more s)
  unfolding did
  did-IsSound more s m h = record {
    allows = h.allows;
    counted = h.counted;
    owned = h.owned;
    proper = All-append Proper s.actions more h.proper m;
  }

  acquire-IsSound :
      (u : ℤ) (conn n : ℕ) (s : Server)
      → u ≡ uid
      → s.slots ≡ n
      → IsSound s
      → IsSound (acquire u conn n s)
  unfolding acquire
  acquire-IsSound u conn zero s e slots h =
      did-IsSound (refuses_full ∷ closes conn ∷ []) s (tt, (tt, tt)) h
  acquire-IsSound u conn (suc n) s e slots h = record {
    allows = h.allows;
    counted = omega (arith, h.counted);
    owned = (e, h.owned);
    proper = h.proper;
  }

  admit-IsSound :
      (peer : Option ℤ) (conn : ℕ) (s : Server) → IsSound s → IsSound (admit peer conn s)
  unfolding admit
  admit-IsSound none conn s h = did-IsSound (closes conn ∷ []) s (tt, tt) h
  admit-IsSound (some u) conn s h = elim (Bool-cases (int_eq u s.allow_uid)) [
    | inl e ↦
        rw e (acquire-IsSound u conn s.slots s (cc (int_eq_sound u s.allow_uid e, h.allows)) refl h)
    | inr e ↦ rw e (did-IsSound (refuses_uid u ∷ closes conn ∷ []) s (tt, (tt, tt)) h)
  ]

  remove_at-Owned : (i : ℕ) (xs : List Session) → All Owned xs → All Owned (remove_at i xs)
  remove_at-Owned i [] h = tt
  remove_at-Owned zero (y ∷ ys) h = h.1
  remove_at-Owned (suc i) (y ∷ ys) h = (h.0, remove_at-Owned i ys h.1)

  join_at-Owned : (i : ℕ) (xs : List Session) → All Owned xs → All Owned (join_at i xs)
  join_at-Owned i [] h = tt
  join_at-Owned zero (y ∷ ys) h = h
  join_at-Owned (suc i) (y ∷ ys) h = (h.0, join_at-Owned i ys h.1)

  get_elem?-Owned :
      (i : ℕ) (xs : List Session) (x : Session) → All Owned xs → get_elem? xs i ≡ some x → Owned x
  get_elem?-Owned i [] x h e = cc
  get_elem?-Owned zero (y ∷ ys) x h e = cc (e, h.0)
  get_elem?-Owned (suc i) (y ∷ ys) x h e = get_elem?-Owned i ys x h.1 e

  close_session-IsSound :
      (i : ℕ) (s : Server) (x : Session)
      → get_elem? s.sessions i ≡ some x
      → IsSound s
      → IsSound (close_session i x.conn s)
  unfolding close_session release did
  close_session-IsSound i s x e h =
      let less = length-remove_at i s.sessions x e in
      rw (lt→ltb s.slots 8 (omega (arith, less, h.counted))) (record {
        allows = h.allows;
        counted = omega (arith, less, h.counted);
        owned = remove_at-Owned i s.sessions h.owned;
        proper = All-append Proper s.actions (closes x.conn ∷ []) h.proper (tt, tt);
      })

  start_child-IsSound :
      (i : ℕ) (starts : Bool) (o : Option Session) (s : Server)
      → get_elem? s.sessions i ≡ o
      → IsSound s
      → IsSound (start_child i starts o s)
  unfolding start_child
  start_child-IsSound i starts none s e h = h
  start_child-IsSound i starts (some x) s e h = elim (Bool-cases x.joined) [
    | inl j ↦ rw j h
    | inr j ↦ rw j (begun starts)
  ]
    where
      joined_IsSound : IsSound (record s { sessions = join_at i s.sessions })
      joined_IsSound = record {
        allows = h.allows;
        counted = omega (arith, length-join_at i s.sessions, h.counted);
        owned = join_at-Owned i s.sessions h.owned;
        proper = h.proper;
      }

      begun :
          (b : Bool)
          → IsSound (
              if b
              then did (spawns x.peer ∷ []) (record s { sessions = join_at i s.sessions })
              else close_session i x.conn (did (cannot_start ∷ []) s))
      begun true =
          did-IsSound (spawns x.peer ∷ []) _ (get_elem?-Owned i s.sessions x h.owned e, tt)
            joined_IsSound
      begun false =
          close_session-IsSound i (did (cannot_start ∷ []) s) x (unfold did in e)
            (did-IsSound (cannot_start ∷ []) s (tt, tt) h)

  end_child-IsSound :
      (i : ℕ) (lingers : Bool) (o : Option Session) (s : Server)
      → get_elem? s.sessions i ≡ o
      → IsSound s
      → IsSound (end_child i lingers o s)
  unfolding end_child
  end_child-IsSound i lingers none s e h = h
  end_child-IsSound i lingers (some x) s e h = elim (Bool-cases x.joined) [
    | inl j ↦ rw j (killed lingers)
    | inr j ↦ rw j h
  ]
    where
      killed : (b : Bool) → IsSound (close_session i x.conn (if b then did (kills ∷ []) s else s))
      killed true =
          close_session-IsSound i (did (kills ∷ []) s) x (unfold did in e)
            (did-IsSound (kills ∷ []) s (tt, tt) h)
      killed false = close_session-IsSound i s x e h

  step-IsSound : (e : Event) (s : Server) → IsSound s → IsSound (step e s)
  unfolding step
  step-IsSound (connection peer) s h =
      admit-IsSound peer s.accepted (record s { accepted = suc s.accepted })
        (record { allows = h.allows; counted = h.counted; owned = h.owned; proper = h.proper })
  step-IsSound (popen i starts) s h = start_child-IsSound i starts (get_elem? s.sessions i) s refl h
  step-IsSound (child_ends i lingers) s h =
      end_child-IsSound i lingers (get_elem? s.sessions i) s refl h

  run_from-IsSound : (es : List Event) (s : Server) → IsSound s → IsSound (run es s)
  unfolding run
  run_from-IsSound [] s h = h
  run_from-IsSound (e ∷ es) s h = run_from-IsSound es (step e s) (step-IsSound e s h)

  -- Whatever connects, starts, fails and ends, in any order, the free slots and the open sessions
  -- are eight together, every session and every child that was ever started is for the allowed uid,
  -- and no slot is given back twice.
  pub run-IsSound : (es : List Event) → IsSound (run es (listening uid))
  unfolding listening
  run-IsSound es =
      run_from-IsSound es (listening uid)
        (record { allows = refl; counted = refl; owned = tt; proper = tt })
