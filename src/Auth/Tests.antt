-- ===== src/Auth/Tests.antt =====
-- Runs of the authentication code, and its theorems at concrete data. The hash functions are
-- replaced by injective ones that are easy to follow.
use rebekah.Prelude.{
  List, ◌+◌, ◌≡◌, refl, true, false, none, some, [], ◌∷◌, ◌++◌, arith, is_some, if◌then◌else◌,
}
use rebekah.Prelude.Int.{pos, ◌+ℤ◌}
use rebekah.Prelude.Text.{Text, codes, text_eq, strip, partition, lower, split, no_space, is_space}
use rebekah.Prelude.Dict.{erase, lookup, insert}
use rebekah.Prelude.Exec.{ok, err, type_error}
use rebekah.Auth.Store
use rebekah.Auth.Store.{
  Hashes, PasswordStore, User, Session, new_store, user_count, encode, upsert_user, create_session,
  principal_for_token, revoke,
}
use rebekah.Auth.Oidc
use rebekah.Auth.Oidc.{Oidc, accept_claims, has_scope}
use rebekah.Json
use rebekah.Json.{is_truthy, iterate, get, or_value}
use rebekah.Auth.Principal.{
  Authenticator, by_oidc, logout, bearer, is_local_token, by_session, by_credential, principal,
  login,
}
use rebekah.Auth.Seed.{Draw, SeedConfig, start, start-login}
use rebekah.Auth.Refine.{Call, waits, mints, asks, revokes, answers, spec_answers, answers_refine}
use rebekah.Auth.Grants.{Grants, session, principal-Grants}
use rebekah.Auth.Complete.{Grants-principal}
use rebekah.Auth.Login.{bearer_header, principal-logout}
use rebekah.Auth.Reach.{
  Site, tick, quiet, login as logs_in, Reach, here, next, Idle, session_owner, sessions_end,
  add_user, deadline_of,
}

abbrev hashes : Hashes
hashes = record { scrypt = λ p s. p ++ 0 ∷ s; sha256 = λ t. 35 ∷ t }

abbrev salt : Text
salt = codes "salt"

abbrev empty : PasswordStore
empty = new_store (pos 100)

abbrev with_ann : PasswordStore
with_ann = record {
  session_ttl = pos 100;
  users = (codes "ann", record { salt = salt; hash = codes "pw" ++ 0 ∷ salt; created = 5 }) ∷ [];
  sessions = [];
}

upsert_runs : upsert_user hashes salt 5 (codes "ann") (codes "pw") empty ≡ (ok tt, with_ann)
unfolding upsert_user insert
upsert_runs = refl

-- A token with a subject and two scopes, and one with a subject that is no text.
abbrev provider : Oidc
provider = record {
  decode = λ t.
      if text_eq t (codes "jwt")
      then some (
          (codes "sub", Json.str (codes "eve"))
          ∷ (codes "scope", Json.str (codes "read admin"))
          ∷ [])
      else if text_eq t (codes "odd")
      then some ((codes "sub", Json.arr (Json.cons Json.null Json.nil)) ∷ [])
      else none;
  spell = λ v. [];
  allowed_subjects = codes "eve" ∷ [];
  required_scope = codes "admin";
}

oidc_runs : Oidc.verify provider (codes "jwt") ≡ ok (some (Json.str (codes "eve")))
unfolding Oidc.verify accept_claims has_scope is_truthy iterate get or_value lookup split text_eq
oidc_runs = refl

oidc_raises : Oidc.verify provider (codes "odd") ≡ err type_error
unfolding Oidc.verify accept_claims is_truthy get lookup text_eq
oidc_raises = refl

abbrev gate : Authenticator
gate = record { token = codes "local"; passwords = some with_ann; oidc = some provider }

-- A token with a letter outside ASCII makes the comparison raise.
token_raises : (principal hashes 10 (some (codes "Bearer café")) gate).0 ≡ err type_error
unfolding principal by_credential bearer strip partition lower is_local_token text_eq
token_raises = refl

local_runs :
    (principal hashes 10 (some (codes "bEARER  local ")) gate).0 ≡ ok (some (codes "token:local"))
unfolding principal by_credential bearer strip partition lower is_local_token text_eq
local_runs = refl

abbrev in_use : PasswordStore
in_use = record with_ann {
  sessions = (codes "#t", record { username = codes "ann"; expires = pos 105 }) ∷ [];
}

expired_now : (principal_for_token hashes 106 (codes "t") in_use).0 ≡ none
unfolding principal_for_token lookup text_eq
expired_now = refl

abbrev gate_in_use : Authenticator
gate_in_use = record gate { passwords = some in_use }

session_runs :
    (principal hashes 50 (some (codes "Bearer t")) gate_in_use).0 ≡ ok (some (codes "user:ann"))
unfolding principal by_credential bearer strip partition lower is_local_token text_eq by_session
    principal_for_token lookup
session_runs = refl

principal-Grants_example :
    (credential : Text) × (bearer (some (codes "Bearer t")) ≡ some credential)
    × Grants hashes 50 gate_in_use credential (codes "user:ann")
principal-Grants_example =
    principal-Grants hashes 50 gate_in_use (some (codes "Bearer t")) (codes "user:ann") session_runs

bearer_runs : bearer (some (codes "Bearer t")) ≡ some (codes "t")
unfolding bearer strip partition lower text_eq
bearer_runs = refl

t_is_worth : Grants hashes 50 gate_in_use (codes "t") (codes "user:ann")
unfolding lookup text_eq
t_is_worth =
    session in_use (record { username = codes "ann"; expires = pos 105 }) refl refl (omega arith)
      refl

Grants-principal_example :
    (p : Text) × ((principal hashes 50 (some (codes "Bearer t")) gate_in_use).0 ≡ ok (some p))
Grants-principal_example =
    Grants-principal hashes 50 gate_in_use (codes "t") (codes "user:ann") (some (codes "Bearer t"))
      bearer_runs refl refl t_is_worth

t_unspaced : no_space (codes "t") ≡ true
unfolding is_space
t_unspaced = refl

t_foreign : is_local_token (codes "local") (codes "t") ≡ ok false
unfolding is_local_token text_eq
t_foreign = refl

principal-logout_example :
    (principal hashes 50
      (bearer_header (codes "t"))
      (logout hashes (bearer_header (codes "t")) gate_in_use)).0
    ≡ by_oidc (some provider) (codes "t")
principal-logout_example =
    principal-logout hashes (codes "t") (codes "ann") (codes "pw") 5 50 gate_in_use in_use refl refl
      t_unspaced t_foreign

abbrev config : SeedConfig
config = record { password_enabled = true; admin_user = codes "admin"; admin_password = [] }

abbrev draw : Draw
draw = record { salt = salt; now = 7; generated = codes "s3cret"; file_written = true }

start-login_example :
    (st : PasswordStore) × ((start hashes config draw (some empty)).passwords ≡ some st)
    × (Store.verify hashes (codes "admin") (codes "s3cret") st ≡ ok true)
    × ((start hashes config draw (some empty)).secret_file ≡ some (codes "s3cret" ++ 10 ∷ []))
unfolding user_count
start-login_example = start-login hashes config draw empty refl refl refl refl refl

abbrev begin : Site
begin = record { now = 5; store = empty }

abbrev peopled : Site
peopled = record { now = 5; store = (upsert_user hashes salt 5 (codes "ann") (codes "pw") empty).1 }

abbrev logged_in : Site
logged_in = record {
  now = 5;
  store = (create_session hashes (codes "t") 5 (codes "ann") peopled.store).1;
}

peopled_passes : Store.verify hashes (codes "ann") (codes "pw") peopled.store ≡ ok true
unfolding Store.verify upsert_user insert lookup text_eq
peopled_passes = refl

history : Reach hashes begin logged_in
history =
    next (next here (quiet (add_user salt (codes "ann") (codes "pw"))))
      (logs_in (codes "t") (codes "ann") (codes "pw") peopled_passes)

t_speaks : (principal_for_token hashes 5 (codes "t") logged_in.store).0 ≡ some (codes "ann")
unfolding principal_for_token create_session upsert_user insert lookup text_eq ◌+ℤ◌
t_speaks = refl

session_owner_example : is_some (lookup (codes "ann") logged_in.store.users) ≡ true
session_owner_example =
    session_owner hashes (pos 100) 5 logged_in (codes "t") (codes "ann") history t_speaks

abbrev next_day : Site
next_day = record logged_in { now = 5 + 86400 }

logged_in_deadline : deadline_of logged_in ≡ pos 105
unfolding create_session upsert_user ◌+ℤ◌
logged_in_deadline = refl

sessions_end_example : (principal_for_token hashes 86405 (codes "t") next_day.store).0 ≡ none
sessions_end_example =
    sessions_end hashes (pos 100) 5 logged_in next_day (codes "t") history
      (Idle.next Idle.here (tick 86400)) (rw logged_in_deadline (omega arith))

abbrev calls : List Call
calls =
    mints (codes "t") (codes "ann")
    ∷ waits 101
    ∷ asks (codes "t")
    ∷ asks (codes "t")
    ∷ mints (codes "u") (codes "ann")
    ∷ asks (codes "u")
    ∷ revokes (codes "u")
    ∷ asks (codes "u")
    ∷ []

answers_calls : answers hashes calls 5 with_ann ≡ none ∷ none ∷ some (codes "ann") ∷ none ∷ []
unfolding answers principal_for_token create_session revoke lookup insert erase text_eq ◌+ℤ◌
answers_calls = refl

answers_refine_example :
    answers hashes calls 5 with_ann
    ≡ spec_answers hashes (pos 100) calls 5 (λ k. lookup k with_ann.sessions)
answers_refine_example = answers_refine hashes calls 5 with_ann
