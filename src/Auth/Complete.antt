-- ===== src/Auth/Complete.antt =====
-- Every credential that is worth something is let in by `Authenticator.principal`
-- (nix/gateway.py), whichever schemes are tried before it.
use rebekah.Prelude.{
  ℕ, ◌≡◌, refl, Bool, true, false, Option, none, some, ◌++◌, arith, inl, inr, Bool-cases,
  Option-cases,
}
use rebekah.Prelude.Text.{Text, codes, text_eq, text_eq_iff, is_empty, is_ascii}
use rebekah.Prelude.Exec.{Result, ok, Raised}
use rebekah.Auth.Store.{Hashes, PasswordStore, principal_for_token}
use rebekah.Auth.Sessions.{principal_for_token-row}
use rebekah.Auth.Oidc
use rebekah.Auth.Oidc.{Oidc}
use rebekah.Json.{str}
use rebekah.Auth.Grants.{Grants, local, session, identity}
use rebekah.Auth.Principal.{
  Authenticator, by_oidc, bearer, is_local_token, by_session, by_credential, principal,
}

abbrev IsSomeone : Result Raised (Option Text) → Type 0
IsSomeone r = (p : Text) × (r ≡ ok (some p))

module _ (h : Hashes) (now : ℕ) (a : Authenticator) (credential name : Text) where
  by_oidc-IsSomeone :
      (o : Oidc) (sub : Text)
      → a.oidc ≡ some o
      → Oidc.verify o credential ≡ ok (some (str sub))
      → by_oidc a.oidc credential ≡ ok (some (codes "oidc:" ++ sub))
  by_oidc-IsSomeone o sub e v = ground arith

  behind_sessions :
      (o : Oidc) (sub : Text) (passwords : Option PasswordStore)
      → a.oidc ≡ some o
      → Oidc.verify o credential ≡ ok (some (str sub))
      → a.passwords ≡ passwords
      → IsSomeone (by_session h now credential a).0
  unfolding by_session
  behind_sessions o sub none eo v e = (codes "oidc:" ++ sub, ground arith)
  behind_sessions o sub (some st) eo v e =
      elim (Option-cases (principal_for_token h now credential st).0) [
        | inl u ↦ (codes "oidc:" ++ sub, ground arith)
        | inr (user, u) ↦ (codes "user:" ++ user, ground arith)
      ]

  -- A session is found before OIDC is asked, and OIDC is asked where there is none.
  by_session-IsSomeone :
      is_local_token a.token credential ≡ ok false
      → is_ascii credential ≡ true
      → is_ascii a.token ≡ true
      → Grants h now a credential name
      → IsSomeone (by_session h now credential a).0
  unfolding by_session
  by_session-IsSomeone l ac at (local ne e n) =
      absurd (unfold is_local_token in ground (arith, text_eq_iff credential a.token))
  by_session-IsSomeone l ac at (session st row es er le n) =
      (codes "user:" ++ row.username, ground (arith, principal_for_token-row h now credential st))
  by_session-IsSomeone l ac at (identity o sub eo v n) = behind_sessions o sub a.passwords eo v refl

  -- With ASCII texts the comparison of tokens raises nothing.
  is_local_token-ok :
      is_ascii credential ≡ true
      → is_ascii a.token ≡ true
      → (b : Bool) × (is_local_token a.token credential ≡ ok b)
  is_local_token-ok ac at = elim (Bool-cases (is_empty a.token)) [
    | inl e ↦ (false, unfold is_local_token in ground arith)
    | inr e ↦ (text_eq credential a.token, unfold is_local_token in ground arith)
  ]

  by_credential-IsSomeone :
      (b : Bool)
      → is_local_token a.token credential ≡ ok b
      → is_ascii credential ≡ true
      → is_ascii a.token ≡ true
      → Grants h now a credential name
      → IsSomeone (by_credential h now credential a).0
  unfolding by_credential
  by_credential-IsSomeone true l ac at g = (codes "token:local", ground arith)
  by_credential-IsSomeone false l ac at g =
      let (p, e) = by_session-IsSomeone l ac at g in (p, ground arith)

  -- A header that holds a credential of one of the three kinds speaks for somebody, where the
  -- credential and the configured token are ASCII.
  pub Grants-principal :
      (header : Option Text)
      → bearer header ≡ some credential
      → is_ascii credential ≡ true
      → is_ascii a.token ≡ true
      → Grants h now a credential name
      → (p : Text) × ((principal h now header a).0 ≡ ok (some p))
  unfolding principal
  Grants-principal header e ac at g =
      let (b, l) = is_local_token-ok ac at in
      let (p, k) = by_credential-IsSomeone b l ac at g in (p, ground arith)
