-- ===== src/Auth/Grants.antt =====
-- What `Authenticator.principal` (nix/gateway.py) lets in, and that it lets in nothing else.
use rebekah.Prelude.{
  ℕ, ◌≡◌, refl, Bool, true, false, Option, none, some, ◌++◌, arith, Option-cases, inl, inr,
}
use rebekah.Prelude.Int.{pos, ◌≤ℤ◌}
use rebekah.Prelude.Text.{Text, codes, text_eq_iff, is_empty}
use rebekah.Prelude.Dict.{lookup}
use rebekah.Prelude.Exec.{Result, ok, err, Raised}
use rebekah.Auth.Store.{Hashes, PasswordStore, Session}
use rebekah.Auth.Oidc
use rebekah.Auth.Oidc.{Oidc}
use rebekah.Json.{Json, null, str, boolean, int, float, arr, obj}
use rebekah.Auth.Sessions.{speaks_for, principal_for_token-row}
use rebekah.Auth.Principal.{
  tagged, with_subject, by_oidc, Authenticator, bearer, is_local_token, by_session, by_credential,
  principal,
}

module _ (h : Hashes) (now : ℕ) where
  -- The three credentials that are worth something at `now`, and the principal that each names.
  pub data Grants (a : Authenticator) (credential name : Text) : Type 0 where
    local :
        is_empty a.token ≡ false
        → credential ≡ a.token
        → name ≡ codes "token:local"
        → Grants a credential name
    session :
        (st : PasswordStore) (row : Session)
        → a.passwords ≡ some st
        → lookup (h.sha256 credential) st.sessions ≡ some row
        → pos now ≤ℤ row.expires
        → name ≡ codes "user:" ++ row.username
        → Grants a credential name
    identity :
        (o : Oidc) (sub : Text)
        → a.oidc ≡ some o
        → Oidc.verify o credential ≡ ok (some (str sub))
        → name ≡ codes "oidc:" ++ sub
        → Grants a credential name

  module _ (a : Authenticator) (credential name : Text) where
    verified-Grants :
        (o : Oidc) (v : Result Raised (Option Json))
        → a.oidc ≡ some o
        → Oidc.verify o credential ≡ v
        → with_subject v ≡ ok (some name)
        → Grants a credential name
    verified-Grants o (err e) eo ev h = absurd (cc h)
    verified-Grants o (ok none) eo ev h = absurd (cc h)
    verified-Grants o (ok (some (str sub))) eo ev h = identity o sub eo ev (ground arith)
    verified-Grants o (ok (some null)) eo ev h = absurd (cc h)
    verified-Grants o (ok (some (boolean b))) eo ev h = absurd (cc h)
    verified-Grants o (ok (some (int n))) eo ev h = absurd (cc h)
    verified-Grants o (ok (some (float t))) eo ev h = absurd (cc h)
    verified-Grants o (ok (some (arr vs))) eo ev h = absurd (cc h)
    verified-Grants o (ok (some (obj fs))) eo ev h = absurd (cc h)

    by_oidc-Grants :
        (oidc : Option Oidc)
        → a.oidc ≡ oidc
        → by_oidc oidc credential ≡ ok (some name)
        → Grants a credential name
    by_oidc-Grants none e h = absurd (cc h)
    by_oidc-Grants (some o) e h = verified-Grants o (Oidc.verify o credential) e refl h

    row-Grants :
        (st : PasswordStore) (row : Option Session)
        → a.passwords ≡ some st
        → lookup (h.sha256 credential) st.sessions ≡ row
        → tagged "user:" (speaks_for h now row) ≡ some name
        → Grants a credential name
    row-Grants st none es er e = cc
    row-Grants st (some row) es er e = session st row es er (ground arith) (ground arith)

    -- A session, or else OIDC.
    second : Option Text → Result Raised (Option Text)
    second user = elim (tagged "user:" user) [
      | none ↦ by_oidc a.oidc credential
      | some n ↦ ok (some n)
    ]

    second-Grants :
        (st : PasswordStore) (user : Option Text)
        → a.passwords ≡ some st
        → speaks_for h now (lookup (h.sha256 credential) st.sessions) ≡ user
        → second user ≡ ok (some name)
        → Grants a credential name
    unfolding second
    second-Grants st none es er e = by_oidc-Grants a.oidc refl e
    second-Grants st (some n) es er e =
        row-Grants st (lookup (h.sha256 credential) st.sessions) es refl (rw er (cc e))

    by_session-row :
        (st : PasswordStore)
        → a.passwords ≡ some st
        → (by_session h now credential a).0
          ≡ (second (speaks_for h now (lookup (h.sha256 credential) st.sessions)))
    unfolding by_session second
    by_session-row st e = ground (arith, principal_for_token-row h now credential st)

    by_session-Grants :
        (passwords : Option PasswordStore)
        → a.passwords ≡ passwords
        → (by_session h now credential a).0 ≡ ok (some name)
        → Grants a credential name
    by_session-Grants none e g = by_oidc-Grants a.oidc refl (unfold by_session in ground arith)
    by_session-Grants (some st) e g =
        second-Grants st (speaks_for h now (lookup (h.sha256 credential) st.sessions)) e refl
          (cc (by_session-row st e))

    is_local_token-Grants :
        is_local_token a.token credential ≡ ok true
        → name ≡ codes "token:local"
        → Grants a credential name
    is_local_token-Grants e n = local (local_nonempty e) (local_eq e) n
      where
        local_nonempty : is_local_token a.token credential ≡ ok true → is_empty a.token ≡ false
        local_nonempty e = unfold is_local_token in ground arith

        local_eq : is_local_token a.token credential ≡ ok true → credential ≡ a.token
        local_eq e = unfold is_local_token in ground (arith, text_eq_iff credential a.token)

    by_credential-Grants :
        (r : Result Raised Bool)
        → is_local_token a.token credential ≡ r
        → (by_credential h now credential a).0 ≡ ok (some name)
        → Grants a credential name
    unfolding by_credential
    by_credential-Grants (err e) er g = absurd (ground arith)
    by_credential-Grants (ok true) er g = is_local_token-Grants er (ground arith)
    by_credential-Grants (ok false) er g = by_session-Grants a.passwords refl (ground arith)

  -- Whoever a request speaks for, its header is `Bearer` with a credential, and that credential
  -- is the configured token, the token of a session that has not expired, or one that the OIDC
  -- verifier accepts; the principal's name says which, and for whom.
  pub principal-Grants :
      (a : Authenticator) (header : Option Text) (name : Text)
      → (principal h now header a).0 ≡ ok (some name)
      → (credential : Text) × (bearer header ≡ some credential) × Grants a credential name
  unfolding principal
  principal-Grants a header name g = elim (Option-cases (bearer header)) [
    | inl e ↦ absurd (ground arith)
    | inr (credential, e) ↦ (
      credential,
      e,
      by_credential-Grants a credential name (is_local_token a.token credential) refl
          (ground arith),
    )
  ]
