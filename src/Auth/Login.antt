-- ===== src/Auth/Login.antt =====
-- Login, use and logout in nix/gateway.py, end to end: `Authenticator.login`, the header that a
-- client then sends, `Authenticator.principal` and `_serve_logout`.
use rebekah.Prelude.{ℕ, ◌≡◌, refl, true, false, Option, none, some, ◌++◌, arith, ◌⊎◌}
use rebekah.Prelude.Text.{Text, codes, text_eq, is_empty, no_space, strip-no_space}
use rebekah.Prelude.Exec.{ok, Result, Raised}
use rebekah.Auth.Store
use rebekah.Auth.Store.{Hashes, PasswordStore, principal_for_token, revoke}
use rebekah.Auth.Sessions.{principal_for_token-revoke}
use rebekah.Prelude.Text.{text_eq_refl}
use rebekah.Auth.Principal.{
  Authenticator, by_oidc, bearer, is_local_token, by_session, by_credential, principal, login,
  logout,
}

-- The header that the console sends with a token.
abbrev pub bearer_header : Text → Option Text
bearer_header token = some (codes "Bearer " ++ token)

pub bearer-bearer_header :
    (token : Text)
    → is_empty token ≡ false
    → no_space token ≡ true
    → bearer (bearer_header token) ≡ some token
unfolding bearer text_eq
bearer-bearer_header token ne ns = rw (strip-no_space token ns, ne)

module _ (h : Hashes) (token : Text) (a : Authenticator) where
  -- A credential that is not the configured token is looked for in the sessions.
  principal-by_session :
      (now : ℕ)
      → is_empty token ≡ false
      → no_space token ≡ true
      → is_local_token a.token token ≡ ok false
      → principal h now (bearer_header token) a ≡ by_session h now token a
  unfolding principal by_credential
  principal-by_session now ne ns l = ground (arith, bearer-bearer_header token ne ns)

  -- What a session store answers, with OIDC behind it.
  abbrev answer : Option Text → Result Raised (Option Text)
  answer none = by_oidc a.oidc token
  answer (some user) = ok (some (codes "user:" ++ user))

  by_session-answer :
      (now : ℕ) (st : PasswordStore) (b : Authenticator)
      → b.passwords ≡ some st
      → b.oidc ≡ a.oidc
      → (by_session h now token b).0 ≡ answer (principal_for_token h now token st).0
  unfolding by_session
  by_session-answer now st b e o = ground arith

module _ (h : Hashes) (token username password : Text) (now later : ℕ) (a : Authenticator)
    (st : PasswordStore) (enabled : a.passwords ≡ some st) (nonempty : is_empty token ≡ false)
    (unspaced : no_space token ≡ true) (foreign : is_local_token a.token token ≡ ok false) where
  -- After a logout with a token, its header is worth what OIDC makes of it, at every time. Logins by
  -- password are on, and the token is not empty, has no white space and is not the configured one.
  pub principal-logout :
      (principal h later (bearer_header token) (logout h (bearer_header token) a)).0
      ≡ by_oidc a.oidc token
  unfolding logout
  principal-logout = ground (
    arith,
    bearer-bearer_header token nonempty unspaced,
    principal-by_session h token (record a { passwords = some (revoke h token st) }) later nonempty
        unspaced foreign,
    by_session-answer h token a later (revoke h token st)
        (record a { passwords = some (revoke h token st) }) refl refl,
    principal_for_token-revoke h later token token st,
    text_eq_refl (h.sha256 token),
  )

-- A login that mints no session leaves everything as it was, and mints none where the username or
-- the password is empty, where the login by password is off, and where the password is wrong.
pub login_refused :
    (h : Hashes) (token : Text) (now : ℕ) (username password : Text) (a : Authenticator)
    → (a.passwords ≡ none)
      ⊎ (is_empty username ≡ true)
      ⊎ (is_empty password ≡ true)
      ⊎ ((st : PasswordStore) × (a.passwords ≡ some st)
          × (Store.verify h username password st ≡ ok false))
    → login h token now username password a ≡ (ok none, a)
unfolding login
login_refused h token now username password a why = ground arith
