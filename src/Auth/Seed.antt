-- ===== src/Auth/Seed.antt =====
-- `Authenticator.__init__` and `_seed_admin` of nix/gateway.py: the first user of a new database.
use rebekah.Prelude.{
  ℕ, ◌≡◌, ◌≢◌, Bool, true, false, not, ◌&&◌, Option, none, some, [], ◌∷◌, ◌++◌, ◌==◌, arith,
  if◌then◌else◌, Bool-cases, inl, inr, ◌⊎◌,
}
use rebekah.Prelude.Text.{is_encodable, Text, text_eq, is_empty, text_eq_refl}
use rebekah.Prelude.Dict.{lookup-insert}
use rebekah.Prelude.Exec.{ok, err}
use rebekah.Auth.Store.{Hashes, PasswordStore, user_count, encode, upsert_user, verify}

-- What a start draws: the salt, the clock, the password that `secrets.token_urlsafe(18)` makes,
-- and whether the file for it could be written.
pub record Draw : Type 0 where
  pub salt : Text
  pub now : ℕ
  pub generated : Text
  pub file_written : Bool

pub record SeedConfig : Type 0 where
  pub password_enabled : Bool
  pub admin_user : Text
  pub admin_password : Text

-- The store, where the login by password works, and what `initial-admin-password` now holds,
-- where this start wrote it.
pub record Started : Type 0 where
  pub passwords : Option PasswordStore
  pub secret_file : Option Text

module _ (h : Hashes) (salt username : Text) (now : ℕ) where
  -- After a user is written, a password is accepted for that user exactly when it derives to the
  -- stored hash under the stored salt.
  pub verify-upsert_user :
      (password attempt : Text) (st : PasswordStore)
      → is_encodable username ≡ true
      → is_encodable password ≡ true
      → is_encodable attempt ≡ true
      → verify h username attempt (upsert_user h salt now username password st).1
        ≡ ok (text_eq (h.scrypt attempt salt) (h.scrypt password salt))
  unfolding verify upsert_user encode
  verify-upsert_user password attempt st eu ep ea = ground (
    arith,
    text_eq_refl username,
    lookup-insert username username
        (record { salt = salt; hash = h.scrypt password salt; created = now }) st.users,
  )

module _ (h : Hashes) (cfg : SeedConfig) (draw : Draw) where
  -- An exception in the constructor's `try` leaves the login by password off.
  abbrev seeded : Text → Option Text → PasswordStore → Started
  seeded password file st =
      let (r, st') = upsert_user h draw.salt draw.now cfg.admin_user password st in
      elim r [
        | ok _ ↦ record { passwords = some st'; secret_file = file }
        | err _ ↦ record { passwords = none; secret_file = file }
      ]

  -- `_seed_admin`
  unfoldable pub seed_admin : PasswordStore → Started
  seed_admin st =
      if not (is_empty cfg.admin_password)
      then seeded cfg.admin_password none st
      else if draw.file_written
      then seeded draw.generated (some (draw.generated ++ 10 ∷ [])) st
      else record { passwords = some st; secret_file = none }

  -- `opened` is the database as it was found, `none` where SQLite raised.
  unfoldable pub start : Option PasswordStore → Started
  start opened =
      if cfg.password_enabled
      then elim opened [
        | none ↦ record { passwords = none; secret_file = none }
        | some st ↦
            if user_count st == 0
            then seed_admin st
            else record { passwords = some st; secret_file = none }
      ]
      else record { passwords = none; secret_file = none }

  -- The password that the first user gets.
  abbrev pub first_password : Text
  first_password = if is_empty cfg.admin_password then draw.generated else cfg.admin_password

  seeded-login :
      (password : Text) (file : Option Text) (st : PasswordStore)
      → is_encodable cfg.admin_user ≡ true
      → is_encodable password ≡ true
      → (st' : PasswordStore) × ((seeded password file st).passwords ≡ some st')
        × (verify h cfg.admin_user password st' ≡ ok true)
  unfolding upsert_user encode
  seeded-login password file st eu ep = (
    (upsert_user h draw.salt draw.now cfg.admin_user password st).1,
    ground arith,
    ground (
      arith,
      text_eq_refl (h.scrypt password draw.salt),
      verify-upsert_user h draw.salt cfg.admin_user draw.now password password st eu ep ep,
    ),
  )

  -- A start on a database with no user, whose password is configured or could be written to its
  -- file, leaves a store in which the configured admin logs in with the configured password, or
  -- with the one that the file now holds on its one line.
  pub start-login :
      (st : PasswordStore)
      → cfg.password_enabled ≡ true
      → user_count st ≡ 0
      → is_encodable cfg.admin_user ≡ true
      → is_encodable first_password ≡ true
      → (is_empty cfg.admin_password && not draw.file_written) ≡ false
      → (st' : PasswordStore) × ((start (some st)).passwords ≡ some st')
        × (verify h cfg.admin_user first_password st' ≡ ok true)
        × ((start (some st)).secret_file
            ≡ (if is_empty cfg.admin_password then some (first_password ++ 10 ∷ []) else none))
  unfolding start seed_admin
  start-login st on empty eu ep written = elim (Bool-cases (is_empty cfg.admin_password)) [
    | inl e ↦
        let (st', p, v) =
          seeded-login draw.generated (some (draw.generated ++ 10 ∷ [])) st eu (ground arith) in
        (st', ground arith, ground arith, ground arith)
    | inr e ↦
        let (st', p, v) = seeded-login cfg.admin_password none st eu (ground arith) in
        (st', ground arith, ground arith, ground arith)
  ]

  -- A start on a database that has users changes none of it and writes no file; with no user, no
  -- configured password and no way to write the file, it seeds nobody.
  pub start_keeps :
      (st : PasswordStore)
      → cfg.password_enabled ≡ true
      → (user_count st ≢ 0) ⊎ ((is_empty cfg.admin_password && not draw.file_written) ≡ true)
      → start (some st) ≡ record { passwords = some st; secret_file = none }
  unfolding start seed_admin
  start_keeps st on keep = ground arith
