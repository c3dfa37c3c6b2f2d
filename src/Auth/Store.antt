-- ===== src/Auth/Store.antt =====
-- `PasswordStore` of nix/gateway.py. Its two tables are dicts by their primary keys, and the lock
-- makes each method one step. The hash functions of the standard library are an argument, as are
-- the clock and the random bytes that a method draws.
use rebekah.Prelude.{ℕ, Bool, false, Option, none, some, [], if◌then◌else◌, length}
use rebekah.Prelude.Int.{ℤ, pos, ◌+ℤ◌, int_ltb}
use rebekah.Prelude.Text.{Text, text_eq, is_encodable}
use rebekah.Prelude.Dict.{Dict, lookup, insert, erase}
use rebekah.Prelude.Exec.{Result, ok, err, Raised, value_error, Exec, lift, ◌>>=◌}

-- `hashlib.scrypt` with the parameters of `_derive`, and `hashlib.sha256(...).hexdigest()`.
pub record Hashes : Type 0 where
  pub scrypt : Text → Text → Text
  pub sha256 : Text → Text

pub record User : Type 0 where
  pub salt : Text
  pub hash : Text
  pub created : ℕ

pub record Session : Type 0 where
  pub username : Text
  pub expires : ℤ

pub record PasswordStore : Type 0 where
  pub session_ttl : ℤ
  pub users : Dict User
  pub sessions : Dict Session

-- Of a lone surrogate SQLite raises too, when it binds one.
unfoldable pub encode : Text → Result Raised Text
encode s = if is_encodable s then ok s else err value_error

-- `PasswordStore(path, session_ttl)` on a new database file.
abbrev pub new_store : ℤ → PasswordStore
new_store ttl = record { session_ttl = ttl; users = []; sessions = [] }

unfoldable pub user_count : PasswordStore → ℕ
user_count st = length st.users

module _ (h : Hashes) where
  -- `_derive`
  unfoldable pub derive : Text → Text → Result Raised Text
  unfolding encode
  derive password salt = elim (encode password) [
    | ok bytes ↦ ok (h.scrypt bytes salt)
    | err e ↦ err e
  ]

  -- The salt is `secrets.token_bytes(16)`.
  unfoldable pub upsert_user : Text → ℕ → Text → Text → Exec PasswordStore (Unit {0})
  unfolding derive
  upsert_user salt now username password = do
    derived ← lift (derive password salt)
    name ← lift (encode username)
    λ st. (
      ok tt,
      record st {
        users = insert name (record { salt = salt; hash = derived; created = now }) st.users;
      },
    )

  -- `hmac.compare_digest` of two byte strings is their equality.
  abbrev check_row : Text → Option User → Result Raised Bool
  check_row password none = elim (derive password []) [ ok _ ↦ ok false | err e ↦ err e ]
  check_row password (some row) = elim (derive password row.salt) [
    | ok derived ↦ ok (text_eq derived row.hash)
    | err e ↦ err e
  ]

  unfoldable pub verify : Text → Text → PasswordStore → Result Raised Bool
  unfolding derive
  verify username password st = elim (encode username) [
    | ok name ↦ check_row password (lookup name st.users)
    | err e ↦ err e
  ]

  -- The token is `secrets.token_urlsafe(32)`.
  unfoldable pub create_session : Text → ℕ → Text → PasswordStore → (Text × ℤ) × PasswordStore
  create_session token now username st =
      let expires = pos now +ℤ st.session_ttl in
      (
        (token, expires),
        record st {
          sessions =
              insert (h.sha256 token) (record { username = username; expires = expires })
                st.sessions;
        },
      )

  -- `DELETE FROM sessions WHERE token_hash=?`
  abbrev drop_session : Text → PasswordStore → PasswordStore
  drop_session token st = record st { sessions = erase (h.sha256 token) st.sessions }

  unfoldable pub principal_for_token : ℕ → Text → PasswordStore → Option Text × PasswordStore
  principal_for_token now token st = elim (lookup (h.sha256 token) st.sessions) [
    | none ↦ (none, st)
    | some row ↦
        if int_ltb row.expires (pos now)
        then (none, drop_session token st)
        else (some row.username, st)
  ]

  unfoldable pub revoke : Text → PasswordStore → PasswordStore
  revoke token st = drop_session token st
