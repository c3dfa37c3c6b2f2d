-- ===== src/Auth/Principal.antt =====
-- `Authenticator` of nix/gateway.py: whom a request's `Authorization` header speaks for, the login
-- and the logout.
use rebekah.Prelude.{
  ℕ, Bool, true, false, not, ◌&&◌, ◌||◌, Option, none, some, ◌++◌, if◌then◌else◌, String,
}
use rebekah.Prelude.Int.{ℤ}
use rebekah.Prelude.Text.{Text, codes, text_eq, is_empty, partition, lower, strip, is_ascii}
use rebekah.Prelude.Exec.{Result, ok, err, Raised, type_error, Exec}
use rebekah.Auth.Store
use rebekah.Auth.Store.{Hashes, PasswordStore, create_session, principal_for_token, revoke}
use rebekah.Auth.Oidc
use rebekah.Auth.Oidc.{Oidc}
use rebekah.Json.{Json, str}

-- `token` is `cfg.token`, and an empty one disables the scheme. `passwords` and `oidc` are `None`
-- where the scheme is off.
pub record Authenticator : Type 0 where
  pub token : Text
  pub passwords : Option PasswordStore
  pub oidc : Option Oidc

-- The credential of a `Bearer` header.
unfoldable pub bearer : Option Text → Option Text
unfolding partition lower strip
bearer none = none
bearer (some header) =
    let (scheme, found, rest) = partition 32 header in
    let credential = strip rest in
    if is_empty header
    then none
    else if not (text_eq (lower scheme) (codes "bearer"))
    then none
    else if is_empty credential
    then none
    else some credential

-- `hmac.compare_digest` refuses texts that are not ASCII.
unfoldable pub compare_digest : Text → Text → Result Raised Bool
compare_digest a b = if is_ascii a && is_ascii b then ok (text_eq a b) else err type_error

-- `self.cfg.token_enabled and hmac.compare_digest(credential, self.cfg.token)`
unfoldable pub is_local_token : Text → Text → Result Raised Bool
unfolding compare_digest
is_local_token token credential =
    if is_empty token then ok false else compare_digest credential token

-- `prefix + name`, of a name that was found.
abbrev pub tagged : String → Option Text → Option Text
tagged prefix none = none
tagged prefix (some name) = some (codes prefix ++ name)

-- `"oidc:" + sub`, which raises where the subject is no text.
abbrev pub with_subject : Result Raised (Option Json) → Result Raised (Option Text)
with_subject (err e) = err e
with_subject (ok none) = ok none
with_subject (ok (some (str sub))) = ok (some (codes "oidc:" ++ sub))
with_subject (ok (some _)) = err type_error

abbrev pub by_oidc : Option Oidc → Text → Result Raised (Option Text)
by_oidc none credential = ok none
by_oidc (some o) credential = with_subject (Oidc.verify o credential)

module _ (h : Hashes) where
  -- The scheme of the sessions, then that of OIDC.
  unfoldable pub by_session : ℕ → Text → Exec Authenticator (Option Text)
  by_session now credential a = elim a.passwords [
    | none ↦ (by_oidc a.oidc credential, a)
    | some st ↦
        let (user, st') = principal_for_token h now credential st in
        let a' = record a { passwords = some st' } in
        elim user [
          | some name ↦ (ok (some (codes "user:" ++ name)), a')
          | none ↦ (by_oidc a.oidc credential, a')
        ]
  ]

  unfoldable pub by_credential : ℕ → Text → Exec Authenticator (Option Text)
  by_credential now credential a = elim (is_local_token a.token credential) [
    | err e ↦ (err e, a)
    | ok true ↦ (ok (some (codes "token:local")), a)
    | ok false ↦ by_session now credential a
  ]

  unfoldable pub principal : ℕ → Option Text → Exec Authenticator (Option Text)
  principal now header a = elim (bearer header) [
    | none ↦ (ok none, a)
    | some credential ↦ by_credential now credential a
  ]

  abbrev mint : Text → ℕ → Text → PasswordStore → Authenticator → Option (Text × ℤ) × Authenticator
  mint token now username st a =
      let (minted, st') = create_session h token now username st in
      (some minted, record a { passwords = some st' })

  -- The fresh token is `secrets.token_urlsafe(32)`.
  unfoldable pub login : Text → ℕ → Text → Text → Exec Authenticator (Option (Text × ℤ))
  login token now username password a = elim a.passwords [
    | none ↦ (ok none, a)
    | some st ↦
        if is_empty username || is_empty password
        then (ok none, a)
        else elim (Store.verify h username password st) [
          | err e ↦ (err e, a)
          | ok false ↦ (ok none, a)
          | ok true ↦ let (minted, a') = mint token now username st a in (ok minted, a')
        ]
  ]

  -- `_serve_logout`, past its check of the method.
  unfoldable pub logout : Option Text → Authenticator → Authenticator
  logout header a = elim (bearer header) [
    | none ↦ a
    | some credential ↦ elim a.passwords [
      | none ↦ a
      | some st ↦ record a { passwords = some (revoke h credential st) }
    ]
  ]
