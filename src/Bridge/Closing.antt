-- ===== src/Bridge/Closing.antt =====
-- Every connection of nix/mcp-bridge.py is closed once, or held by one open session.
use rebekah.Prelude.{
  ℕ, zero, suc, ◌+◌, ◌≡◌, refl, Bool, Option, none, some, List, [], ◌∷◌, ◌++◌, ◌==◌, ltb,
  if◌then◌else◌, arith,
}
use rebekah.Prelude.Int.{ℤ}
use rebekah.Bridge.Server.{
  Session, Server, Action, refuses_uid, refuses_full, spawns, cannot_start, kills, closes,
  over_releases, Event, connection, popen, child_ends, did, acquire, admit, release, get_elem?,
  remove_at, join_at, close_session, start_child, end_child, step, run, listening,
}

abbrev one_if : Bool → ℕ
one_if b = if b then 1 else 0

abbrev count_connections : List Event → ℕ
count_connections [] = 0
count_connections (connection peer ∷ es) = suc (count_connections es)
count_connections (_ ∷ es) = count_connections es

module _ (k : ℕ) where
  abbrev closing : Action → ℕ
  closing (closes conn) = one_if (conn == k)
  closing _ = 0

  -- How often the connection was closed, and how many open sessions hold it.
  abbrev pub count_closed : List Action → ℕ
  count_closed [] = 0
  count_closed (a ∷ as_) = closing a + count_closed as_

  abbrev pub count_held : List Session → ℕ
  count_held [] = 0
  count_held (x ∷ xs) = one_if (x.conn == k) + count_held xs

  abbrev accounted : Server → ℕ
  accounted s = count_closed s.actions + count_held s.sessions

  count_closed-append :
      (xs ys : List Action) → count_closed (xs ++ ys) ≡ count_closed xs + count_closed ys
  count_closed-append [] ys = omega arith
  count_closed-append (x ∷ xs) ys = omega (arith, count_closed-append xs ys)

  count_held-remove_at :
      (i : ℕ) (xs : List Session) (x : Session)
      → get_elem? xs i ≡ some x
      → one_if (x.conn == k) + count_held (remove_at i xs) ≡ count_held xs
  count_held-remove_at i [] x e = cc
  count_held-remove_at zero (y ∷ ys) x e = let q : y ≡ x = cc e in rw q refl
  count_held-remove_at (suc i) (y ∷ ys) x e = omega (arith, count_held-remove_at i ys x e)

  count_held-join_at : (i : ℕ) (xs : List Session) → count_held (join_at i xs) ≡ count_held xs
  count_held-join_at i [] = refl
  count_held-join_at zero (y ∷ ys) = refl
  count_held-join_at (suc i) (y ∷ ys) = omega (arith, count_held-join_at i ys)

  accounted-did :
      (more : List Action) (s : Server) → accounted (did more s) ≡ accounted s + count_closed more
  unfolding did
  accounted-did more s = omega (arith, count_closed-append s.actions more)

  accounted-acquire :
      (u : ℤ) (conn n : ℕ) (s : Server)
      → accounted (acquire u conn n s) ≡ one_if (conn == k) + accounted s
  unfolding acquire
  accounted-acquire u conn zero s = omega (arith, accounted-did (refuses_full ∷ closes conn ∷ []) s)
  accounted-acquire u conn (suc n) s = omega arith

  accounted-admit :
      (peer : Option ℤ) (conn : ℕ) (s : Server)
      → accounted (admit peer conn s) ≡ one_if (conn == k) + accounted s
  unfolding admit
  accounted-admit none conn s = omega (arith, accounted-did (closes conn ∷ []) s)
  accounted-admit (some u) conn s = ground (
    arith,
    accounted-acquire u conn s.slots s,
    accounted-did (refuses_uid u ∷ closes conn ∷ []) s,
  )

  accounted-release : (s : Server) → accounted (release s) ≡ accounted s
  unfolding release
  accounted-release s = ground (arith, accounted-did (over_releases ∷ []) s)

  accounted-close_session :
      (i : ℕ) (s : Server) (x : Session)
      → get_elem? s.sessions i ≡ some x
      → accounted (close_session i x.conn s) ≡ accounted s
  unfolding close_session
  accounted-close_session i s x e = omega (
    arith,
    accounted-release (did (closes x.conn ∷ []) (record s { sessions = remove_at i s.sessions })),
    accounted-did (closes x.conn ∷ []) (record s { sessions = remove_at i s.sessions }),
    count_held-remove_at i s.sessions x e,
  )

  accounted-start_child :
      (i : ℕ) (starts : Bool) (o : Option Session) (s : Server)
      → get_elem? s.sessions i ≡ o
      → accounted (start_child i starts o s) ≡ accounted s
  unfolding start_child
  accounted-start_child i starts none s e = refl
  accounted-start_child i starts (some x) s e = ground (
    arith,
    accounted-did (spawns x.peer ∷ []) (record s { sessions = join_at i s.sessions }),
    count_held-join_at i s.sessions,
    accounted-close_session i (did (cannot_start ∷ []) s) x (unfold did in e),
    accounted-did (cannot_start ∷ []) s,
  )

  accounted-end_child :
      (i : ℕ) (lingers : Bool) (o : Option Session) (s : Server)
      → get_elem? s.sessions i ≡ o
      → accounted (end_child i lingers o s) ≡ accounted s
  unfolding end_child
  accounted-end_child i lingers none s e = refl
  accounted-end_child i lingers (some x) s e = ground (
    arith,
    accounted-close_session i (did (kills ∷ []) s) x (unfold did in e),
    accounted-close_session i s x e,
    accounted-did (kills ∷ []) s,
  )

acquire_accepted : (u : ℤ) (conn n : ℕ) (s : Server) → (acquire u conn n s).accepted ≡ s.accepted
unfolding acquire did
acquire_accepted u conn zero s = refl
acquire_accepted u conn (suc n) s = refl

admit_accepted :
    (peer : Option ℤ) (conn : ℕ) (s : Server) → (admit peer conn s).accepted ≡ s.accepted
unfolding admit did
admit_accepted none conn s = refl
admit_accepted (some u) conn s = ground (arith, acquire_accepted u conn s.slots s)

start_child_accepted :
    (i : ℕ) (starts : Bool) (o : Option Session) (s : Server)
    → (start_child i starts o s).accepted ≡ s.accepted
unfolding start_child close_session release did
start_child_accepted i starts none s = refl
start_child_accepted i starts (some x) s = ground arith

end_child_accepted :
    (i : ℕ) (lingers : Bool) (o : Option Session) (s : Server)
    → (end_child i lingers o s).accepted ≡ s.accepted
unfolding end_child close_session release did
end_child_accepted i lingers none s = refl
end_child_accepted i lingers (some x) s = ground arith

-- Each connection so far is accounted for once, and no other.
abbrev Accounts : ℕ → Server → Type 0
Accounts k s = accounted k s ≡ one_if (ltb k s.accepted)

step-Accounts : (k : ℕ) (e : Event) (s : Server) → Accounts k s → Accounts k (step e s)
unfolding step
step-Accounts k (connection peer) s h =
    let t = record s { accepted = suc s.accepted } in
    ground (arith, h, accounted-admit k peer s.accepted t, admit_accepted peer s.accepted t)
step-Accounts k (popen i starts) s h =
    rw
      (
        accounted-start_child k i starts (get_elem? s.sessions i) s refl,
        start_child_accepted i starts (get_elem? s.sessions i) s,
      )
      h
step-Accounts k (child_ends i lingers) s h =
    rw
      (
        accounted-end_child k i lingers (get_elem? s.sessions i) s refl,
        end_child_accepted i lingers (get_elem? s.sessions i) s,
      )
      h

run-Accounts : (k : ℕ) (es : List Event) (s : Server) → Accounts k s → Accounts k (run es s)
unfolding run
run-Accounts k [] s h = h
run-Accounts k (e ∷ es) s h = run-Accounts k es (step e s) (step-Accounts k e s h)

run_accepted :
    (es : List Event) (s : Server) → (run es s).accepted ≡ count_connections es + s.accepted
unfolding run step
run_accepted [] s = omega arith
run_accepted (connection peer ∷ es) s =
    let t = record s { accepted = suc s.accepted } in
    omega (arith, run_accepted es (admit peer s.accepted t), admit_accepted peer s.accepted t)
run_accepted (popen i starts ∷ es) s = omega (
  arith,
  run_accepted es (step (popen i starts) s),
  start_child_accepted i starts (get_elem? s.sessions i) s,
)
run_accepted (child_ends i lingers ∷ es) s = omega (
  arith,
  run_accepted es (step (child_ends i lingers) s),
  end_child_accepted i lingers (get_elem? s.sessions i) s,
)

-- Whatever happened, in any order, each single connection that came was either closed exactly once
-- and no session holds it, or it was never closed and exactly one open session holds it; no other
-- connection was closed or is held.
pub run_closes :
    (uid : ℤ) (es : List Event) (k : ℕ)
    → count_closed k (run es (listening uid)).actions
        + count_held k (run es (listening uid)).sessions
      ≡ (if ltb k (count_connections es) then 1 else 0)
unfolding listening
run_closes uid es k =
    ground
      (arith, run-Accounts k es (listening uid) (ground arith), run_accepted es (listening uid))
