-- ===== src/Auth/Reach.antt =====
-- The password store of nix/gateway.py over time: any interleaving of logins, requests, logouts
-- and new users, each one step under the store's lock, while the clock moves on.
use rebekah.Prelude.{ℕ, ◌+◌, ◌≤◌, ◌≡◌, refl, true, Option, none, some, arith, is_some, sym, ◌∙◌}
use rebekah.Prelude.Int.{ℤ, pos, ◌+ℤ◌, ◌≤ℤ◌, ◌<ℤ◌, +ℤ_parts}
use rebekah.Prelude.Text.{Text}
use rebekah.Prelude.Dict.{lookup, lookup-insert, lookup-erase, lookup-nil}
use rebekah.Prelude.Exec.{ok}
use rebekah.Auth.Store.{
  Hashes, PasswordStore, Session, new_store, upsert_user, verify, create_session,
  principal_for_token, revoke, encode,
}
use rebekah.Auth.Sessions.{speaks_for, principal_for_token-row}

pub record Site : Type 0 where
  pub now : ℕ
  pub store : PasswordStore

module _ (h : Hashes) where
  -- What can happen without a login.
  pub data Quiet (s : Site) : Site → Type 0 where
    tick : (n : ℕ) → Quiet s (record s { now = s.now + n })
    request :
        (token : Text)
        → Quiet s (record s { store = (principal_for_token h s.now token s.store).1 })
    logout : (token : Text) → Quiet s (record s { store = revoke h token s.store })
    add_user :
        (salt username password : Text)
        → Quiet s (record s { store = (upsert_user h salt s.now username password s.store).1 })

  pub data Step (s : Site) : Site → Type 0 where
    quiet : {t : Site} → Quiet s t → Step s t
    login :
        (token username password : Text)
        → verify h username password s.store ≡ ok true
        → Step s (record s { store = (create_session h token s.now username s.store).1 })

  pub data Reach (s : Site) : Site → Type 0 where
    here : Reach s s
    next : {t u : Site} → Reach s t → Step t u → Reach s u

  pub data Idle (s : Site) : Site → Type 0 where
    here : Idle s s
    next : {t u : Site} → Idle s t → Quiet t u → Idle s u

-- Every session row names a user of the store, and expires by a given time.
pub record IsSound (deadline : ℤ) (st : PasswordStore) : Type 0 where
  pub owned :
      (k : Text) (row : Session)
      → lookup k st.sessions ≡ some row
      → is_some (lookup row.username st.users) ≡ true
  pub bounded :
      (k : Text) (row : Session) → lookup k st.sessions ≡ some row → row.expires ≤ℤ deadline

-- The second store has no session row that the first lacks, and all of its users.
record Shrinks (st st' : PasswordStore) : Type 0 where
  rows :
      (k : Text) (row : Session)
      → lookup k st'.sessions ≡ some row
      → lookup k st.sessions ≡ some row
  users :
      (name : Text) → is_some (lookup name st.users) ≡ true → is_some (lookup name st'.users) ≡ true
  ttl : st'.session_ttl ≡ st.session_ttl

Shrinks-IsSound :
    (deadline : ℤ) (st st' : PasswordStore)
    → Shrinks st st'
    → IsSound deadline st
    → IsSound deadline st'
Shrinks-IsSound deadline st st' s sound = record {
  owned = λ k row e. s.users row.username (sound.owned k row (s.rows k row e));
  bounded = λ k row e. sound.bounded k row (s.rows k row e);
}

module _ (h : Hashes) (st : PasswordStore) where
  Shrinks-refl : Shrinks st st
  Shrinks-refl = record { rows = λ k row e. e; users = λ name e. e; ttl = refl }

  revoke-Shrinks : (token : Text) → Shrinks st (revoke h token st)
  unfolding revoke
  revoke-Shrinks token = record {
    rows = λ j row e. ground (arith, lookup-erase (h.sha256 token) j st.sessions);
    users = λ name e. e;
    ttl = refl;
  }

  principal_for_token-Shrinks :
      (now : ℕ) (token : Text) → Shrinks st (principal_for_token h now token st).1
  unfolding principal_for_token
  principal_for_token-Shrinks now token = record {
    rows = λ j row e. ground (arith, lookup-erase (h.sha256 token) j st.sessions);
    users = λ name e. ground arith;
    ttl = ground arith;
  }

  upsert_user-Shrinks :
      (salt : Text) (now : ℕ) (username password : Text)
      → Shrinks st (upsert_user h salt now username password st).1
  unfolding upsert_user encode
  upsert_user-Shrinks salt now username password = record {
    rows = λ j row e. ground arith;
    users = λ name e. ground (
      arith,
      lookup-insert username name
          (record { salt = salt; hash = h.scrypt password salt; created = now }) st.users,
    );
    ttl = ground arith;
  }

  -- Only a user of the store passes `verify`.
  verify-user :
      (username password : Text)
      → verify h username password st ≡ ok true
      → is_some (lookup username st.users) ≡ true
  unfolding verify encode
  verify-user username password v = ground arith

  create_session-IsSound :
      (deadline : ℤ) (token : Text) (now : ℕ) (username password : Text)
      → IsSound deadline st
      → verify h username password st ≡ ok true
      → (pos now +ℤ st.session_ttl) ≤ℤ deadline
      → IsSound deadline (create_session h token now username st).1
  unfolding create_session
  create_session-IsSound deadline token now username password sound v d = record {
    owned = λ j row e. ground (
      arith,
      sound.owned j row,
      verify-user username password v,
      lookup-insert (h.sha256 token) j
          (record { username = username; expires = pos now +ℤ st.session_ttl }) st.sessions,
    );
    bounded = λ j row e. ground (
      arith,
      sound.bounded j row,
      lookup-insert (h.sha256 token) j
          (record { username = username; expires = pos now +ℤ st.session_ttl }) st.sessions,
    );
  }

module _ (h : Hashes) where
  Quiet-Shrinks : {s t : Site} → Quiet h s t → Shrinks s.store t.store
  Quiet-Shrinks {s} (tick n) = Shrinks-refl h s.store
  Quiet-Shrinks {s} (request token) = principal_for_token-Shrinks h s.store s.now token
  Quiet-Shrinks {s} (logout token) = revoke-Shrinks h s.store token
  Quiet-Shrinks {s} (add_user salt username password) =
      upsert_user-Shrinks h s.store salt s.now username password

  Quiet-now : {s t : Site} → Quiet h s t → s.now ≤ t.now
  Quiet-now (tick n) = omega arith
  Quiet-now (request token) = omega arith
  Quiet-now (logout token) = omega arith
  Quiet-now (add_user salt username password) = omega arith

-- The bound that holds at a time: the lifetime of a session minted now.
abbrev pub deadline_of : Site → ℤ
deadline_of s = pos s.now +ℤ s.store.session_ttl

abbrev IsSoundSite : Site → Type 0
IsSoundSite s = IsSound (deadline_of s) s.store

later-IsSound : (d e : ℤ) (st : PasswordStore) → d ≤ℤ e → IsSound d st → IsSound e st
later-IsSound d e st le sound = record {
  owned = sound.owned;
  bounded = λ k row p. omega (arith, sound.bounded k row p);
}

module _ (h : Hashes) where
  deadline_of-le : {s t : Site} → Quiet h s t → deadline_of s ≤ℤ deadline_of t
  deadline_of-le {s} {t} q = rw ((Quiet-Shrinks h q).ttl) (
      omega (
        arith,
        Quiet-now h q,
        +ℤ_parts (pos s.now) s.store.session_ttl,
        +ℤ_parts (pos t.now) s.store.session_ttl,
      ))

  Step-IsSound : {s t : Site} → Step h s t → IsSoundSite s → IsSoundSite t
  unfolding create_session
  Step-IsSound {s} {t} (quiet q) sound =
      later-IsSound (deadline_of s) (deadline_of t) t.store (deadline_of-le q)
        (Shrinks-IsSound (deadline_of s) s.store t.store (Quiet-Shrinks h q) sound)
  Step-IsSound {s} (login token username password v) sound =
      create_session-IsSound h s.store (deadline_of s) token s.now username password sound v
        (omega arith)

  Reach-IsSound : {s t : Site} → Reach h s t → IsSoundSite s → IsSoundSite t
  Reach-IsSound here sound = sound
  Reach-IsSound (next r st) sound = Step-IsSound st (Reach-IsSound r sound)

  IsSound-new_store :
      (ttl : ℤ) (now : ℕ) → IsSoundSite (record { now = now; store = new_store ttl })
  IsSound-new_store ttl now = record {
    owned = λ k row e. cc (lookup-nil {V = Session} k);
    bounded = λ k row e. cc (lookup-nil {V = Session} k);
  }

  -- Whatever logins, requests, logouts and new users a new store has seen, whoever a token
  -- speaks for is a user of the store.
  pub session_owner :
      (ttl : ℤ) (start : ℕ) (t : Site) (token username : Text)
      → Reach h (record { now = start; store = new_store ttl }) t
      → (principal_for_token h t.now token t.store).0 ≡ some username
      → is_some (lookup username t.store.users) ≡ true
  session_owner ttl start t token username r e =
      let sound : IsSoundSite t = Reach-IsSound r (IsSound-new_store ttl start) in
      owner (lookup (h.sha256 token) t.store.sessions) sound refl
        (sym (principal_for_token-row h t.now token t.store) ∙ e)
    where
      owner :
          (row : Option Session)
          → IsSoundSite t
          → lookup (h.sha256 token) t.store.sessions ≡ row
          → speaks_for h t.now row ≡ some username
          → is_some (lookup username t.store.users) ≡ true
      owner none sound er e = cc
      owner (some row) sound er e = ground (arith, sound.owned (h.sha256 token) row er)

  Idle-IsSound :
      {s t : Site} (deadline : ℤ) → Idle h s t → IsSound deadline s.store → IsSound deadline t.store
  Idle-IsSound deadline here sound = sound
  Idle-IsSound deadline (next {t} {u} i q) sound =
      Shrinks-IsSound deadline t.store u.store (Quiet-Shrinks h q) (Idle-IsSound deadline i sound)

  dead_row :
      (now : ℕ) (deadline : ℤ) (row : Option Session)
      → deadline <ℤ pos now
      → ((r : Session) → row ≡ some r → r.expires ≤ℤ deadline)
      → speaks_for h now row ≡ none
  dead_row now deadline none late bound = refl
  dead_row now deadline (some r) late bound = ground (arith, bound r refl)

  -- From any moment of a new store's history, once more than `session_ttl` seconds have passed
  -- without a login, every session has ended: no token speaks for anybody.
  pub sessions_end :
      (ttl : ℤ) (start : ℕ) (s t : Site) (token : Text)
      → Reach h (record { now = start; store = new_store ttl }) s
      → Idle h s t
      → deadline_of s <ℤ pos t.now
      → (principal_for_token h t.now token t.store).0 ≡ none
  sessions_end ttl start s t token r i late =
      let sound : IsSound (deadline_of s) t.store =
        Idle-IsSound (deadline_of s) i (Reach-IsSound r (IsSound-new_store ttl start)) in
      principal_for_token-row h t.now token t.store
      ∙ dead_row t.now (deadline_of s) (lookup (h.sha256 token) t.store.sessions) late
          (λ row e. sound.bounded (h.sha256 token) row e)
