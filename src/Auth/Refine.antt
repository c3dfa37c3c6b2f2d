-- ===== src/Auth/Refine.antt =====
-- The sessions of `PasswordStore` (nix/gateway.py) against a map that forgets nothing: the store
-- deletes rows as they expire, and no caller can tell.
use rebekah.Prelude.{
  ℕ, ◌+◌, ◌≤◌, ◌≡◌, refl, Option, none, some, List, [], ◌∷◌, arith, if◌then◌else◌, ◌∙◌,
}
use mathlib.Core.Path.{ap₂}
use rebekah.Prelude.Int.{ℤ, pos, ◌+ℤ◌}
use rebekah.Prelude.Text.{Text, text_eq, text_eq_iff}
use rebekah.Prelude.Dict.{lookup, lookup-insert, lookup-erase}
use rebekah.Auth.Store.{Hashes, PasswordStore, Session, create_session, principal_for_token, revoke}
use rebekah.Auth.Sessions.{speaks_for, principal_for_token-row}

-- What callers do: wait, log a user in, ask for a token, log out.
pub data Call : Type 0 where
  waits : ℕ → Call
  mints : Text → Text → Call
  asks : Text → Call
  revokes : Text → Call

module _ (h : Hashes) where
  -- The answers of the store, from a time on.
  unfoldable pub answers : List Call → ℕ → PasswordStore → List (Option Text)
  answers [] now st = []
  answers (waits n ∷ cs) now st = answers cs (now + n) st
  answers (mints token username ∷ cs) now st =
      answers cs now (create_session h token now username st).1
  answers (asks token ∷ cs) now st =
      (principal_for_token h now token st).0 ∷ answers cs now (principal_for_token h now token st).1
  answers (revokes token ∷ cs) now st = answers cs now (revoke h token st)

  -- A map from the hashes of tokens to sessions, which only a logout takes out.
  abbrev pub Sessions : Type 0
  Sessions = Text → Option Session

  abbrev pub put : Text → Option Session → Sessions → Sessions
  put k row m = λ j. if text_eq k j then row else m j

  -- The answers of the map.
  unfoldable pub spec_answers : ℤ → List Call → ℕ → Sessions → List (Option Text)
  spec_answers ttl [] now m = []
  spec_answers ttl (waits n ∷ cs) now m = spec_answers ttl cs (now + n) m
  spec_answers ttl (mints token username ∷ cs) now m =
      spec_answers ttl cs now
        (put (h.sha256 token) (some (record { username = username; expires = pos now +ℤ ttl })) m)
  spec_answers ttl (asks token ∷ cs) now m =
      speaks_for h now (m (h.sha256 token)) ∷ spec_answers ttl cs now m
  spec_answers ttl (revokes token ∷ cs) now m =
      spec_answers ttl cs now (put (h.sha256 token) none m)

  -- The store answers as the map does, now and later.
  record Agree (now : ℕ) (ttl : ℤ) (st : PasswordStore) (m : Sessions) : Type 0 where
    rows :
        (k : Text) (later : ℕ)
        → now ≤ later
        → speaks_for h later (lookup k st.sessions) ≡ speaks_for h later (m k)
    lifetime : st.session_ttl ≡ ttl

  mints-Agree :
      (token username : Text) (now : ℕ) (ttl : ℤ) (st : PasswordStore) (m : Sessions)
      → Agree now ttl st m
      → Agree now ttl
          (create_session h token now username st).1
          (put (h.sha256 token) (some (record { username = username; expires = pos now +ℤ ttl })) m)
  unfolding create_session
  mints-Agree token username now ttl st m a = record {
    rows = λ k later le. ground (
      arith,
      a.rows k later le,
      a.lifetime,
      lookup-insert (h.sha256 token) k
          (record { username = username; expires = pos now +ℤ st.session_ttl }) st.sessions,
    );
    lifetime = a.lifetime;
  }

  revokes-Agree :
      (token : Text) (now : ℕ) (ttl : ℤ) (st : PasswordStore) (m : Sessions)
      → Agree now ttl st m
      → Agree now ttl (revoke h token st) (put (h.sha256 token) none m)
  unfolding revoke
  revokes-Agree token now ttl st m a = record {
    rows = λ k later le.
        ground (arith, a.rows k later le, lookup-erase (h.sha256 token) k st.sessions);
    lifetime = a.lifetime;
  }

  asks-Agree :
      (token : Text) (now : ℕ) (ttl : ℤ) (st : PasswordStore) (m : Sessions)
      → Agree now ttl st m
      → Agree now ttl (principal_for_token h now token st).1 m
  unfolding principal_for_token
  asks-Agree token now ttl st m a = record {
    rows = λ k later le. ground (
      arith,
      a.rows k later le,
      lookup-erase (h.sha256 token) k st.sessions,
      text_eq_iff (h.sha256 token) k,
    );
    lifetime = ground arith;
  }

  answers_by :
      (cs : List Call) (now : ℕ) (ttl : ℤ) (st : PasswordStore) (m : Sessions)
      → Agree now ttl st m
      → answers cs now st ≡ spec_answers ttl cs now m
  unfolding answers spec_answers
  answers_by [] now ttl st m a = refl
  answers_by (waits n ∷ cs) now ttl st m a =
      answers_by cs (now + n) ttl st m
        (record { rows = λ k later le. a.rows k later (omega arith); lifetime = a.lifetime })
  answers_by (mints token username ∷ cs) now ttl st m a =
      answers_by cs now ttl _ _ (mints-Agree token username now ttl st m a)
  answers_by (asks token ∷ cs) now ttl st m a =
      ap₂ ◌∷◌ (principal_for_token-row h now token st ∙ a.rows (h.sha256 token) now (omega arith))
        (answers_by cs now ttl _ m (asks-Agree token now ttl st m a))
  answers_by (revokes token ∷ cs) now ttl st m a =
      answers_by cs now ttl _ _ (revokes-Agree token now ttl st m a)

  -- Whatever callers do, in any order and at any times, each is answered as by a map that drops a
  -- session at its logout alone and that compares its expiry with the clock: that the store
  -- deletes rows as it finds them expired shows to nobody.
  pub answers_refine :
      (cs : List Call) (now : ℕ) (st : PasswordStore)
      → answers cs now st ≡ spec_answers st.session_ttl cs now (λ k. lookup k st.sessions)
  answers_refine cs now st =
      answers_by cs now st.session_ttl st _ (record { rows = λ k later le. refl; lifetime = refl })
