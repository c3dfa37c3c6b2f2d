-- ===== src/Auth/Sessions.antt =====
-- The life of a bearer session in `PasswordStore` (nix/gateway.py): minted, used, expired, revoked.
use rebekah.Prelude.{ℕ, ◌≤◌, ◌≡◌, Option, none, some, arith, if◌then◌else◌}
use rebekah.Prelude.Int.{pos, ◌+ℤ◌, int_ltb}
use rebekah.Prelude.Text.{Text, text_eq, text_eq_refl, text_eq_iff}
use rebekah.Prelude.Dict.{lookup, lookup-insert, lookup-erase}
use rebekah.Auth.Store.{Hashes, PasswordStore, Session, create_session, principal_for_token, revoke}

module _ (h : Hashes) where
  -- Who a looked-up row speaks for.
  abbrev pub speaks_for : ℕ → Option Session → Option Text
  speaks_for now none = none
  speaks_for now (some row) = if int_ltb row.expires (pos now) then none else some row.username

  pub principal_for_token-row :
      (now : ℕ) (token : Text) (st : PasswordStore)
      → (principal_for_token h now token st).0
        ≡ speaks_for now (lookup (h.sha256 token) st.sessions)
  unfolding principal_for_token
  principal_for_token-row now token st = ground arith

  -- A token minted at `now` speaks for its user at every time up to `now + session_ttl`, that
  -- second included, and for nobody later.
  pub principal_for_token-create_session :
      (token : Text) (now later : ℕ) (username : Text) (st : PasswordStore)
      → (principal_for_token h later token (create_session h token now username st).1).0
        ≡ (if int_ltb (pos now +ℤ st.session_ttl) (pos later) then none else some username)
  unfolding create_session
  principal_for_token-create_session token now later username st =
      rw (principal_for_token-row, lookup-insert, text_eq_refl)

  -- A revoked token speaks for nobody at any time, and every other token whose digest differs
  -- for whom it spoke before.
  pub principal_for_token-revoke :
      (now : ℕ) (token other : Text) (st : PasswordStore)
      → (principal_for_token h now other (revoke h token st)).0 ≡ (
          if text_eq (h.sha256 token) (h.sha256 other)
          then none
          else (principal_for_token h now other st).0)
  unfolding revoke
  principal_for_token-revoke now token other st =
      rw (principal_for_token-row, lookup-erase)
        (ground (arith, principal_for_token-row now other st))

  -- Once a token is refused it is refused at every later time: looking at it revives nothing.
  pub principal_for_token_refused :
      (token : Text) (now later : ℕ) (st : PasswordStore)
      → now ≤ later
      → (principal_for_token h now token st).0 ≡ none
      → (principal_for_token h later token (principal_for_token h now token st).1).0 ≡ none
  unfolding principal_for_token
  principal_for_token_refused token now later st le refused = ground (
    arith,
    lookup-erase (h.sha256 token) (h.sha256 token) st.sessions,
    text_eq_refl (h.sha256 token),
  )

  -- Looking at one token never changes what another one says, whether or not it had expired.
  pub principal_for_token_other :
      (now later : ℕ) (token other : Text) (st : PasswordStore)
      → now ≤ later
      → (principal_for_token h later other (principal_for_token h now token st).1).0
        ≡ (principal_for_token h later other st).0
  unfolding principal_for_token
  principal_for_token_other now later token other st le = ground (
    arith,
    lookup-erase (h.sha256 token) (h.sha256 other) st.sessions,
    text_eq_iff (h.sha256 token) (h.sha256 other),
  )
