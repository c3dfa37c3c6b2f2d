-- ===== src/Auth/Oidc.antt =====
-- `OidcVerifier.verify` of nix/gateway.py. PyJWT, which checks the signature, the issuer, the
-- audience and the expiry, is an argument: it yields the claims or refuses the token.
use rebekah.Prelude.{
  Bool, true, false, not, ◌||◌, Option, none, some, List, [], ◌∷◌, if◌then◌else◌, all, any,
}
use rebekah.Prelude.Text.{Text, codes, split, is_empty, is_member, text_eq}
use rebekah.Prelude.Dict.{Dict, lookup}
use rebekah.Prelude.Exec.{Result, Raised, ok, err, type_error}
use rebekah.Json.{Json, str, array, get, is_truthy, is_hashable, iterate, or_list}

-- `spell` is `str` of a value that is no text.
pub record Oidc : Type 0 where
  pub decode : Text → Option (Dict Json)
  pub spell : Json → Text
  pub allowed_subjects : List Text
  pub required_scope : Text

abbrev is_nil : List Text → Bool
is_nil [] = true
is_nil (x ∷ xs) = false

-- `value in set_of_texts`
abbrev pub is_among : Json → List Text → Bool
is_among (str s) texts = is_member s texts
is_among _ texts = false

abbrev pub is_text : Text → Json → Bool
is_text s (str t) = text_eq t s
is_text s _ = false

-- `str(claims.get("scope", ""))`
abbrev pub scope_text : (Json → Text) → Option Json → Text
scope_text spell none = []
scope_text spell (some (str s)) = s
scope_text spell (some v) = spell v

abbrev pub or_nothing : Option Json → Json
or_nothing none = array []
or_nothing (some v) = v

-- Whether the scope is in `set(values)`, which raises where a value cannot be hashed.
abbrev in_values : Text → Bool → Result Raised (List Json) → Result Raised Bool
in_values scope listed (err e) = err e
in_values scope listed (ok vs) =
    if all is_hashable vs then ok (listed || any (is_text scope) vs) else err type_error

unfoldable pub has_scope : Oidc → Dict Json → Result Raised Bool
unfolding iterate lookup split
has_scope o claims =
    in_values o.required_scope
      (is_member o.required_scope (split (scope_text o.spell (lookup (codes "scope") claims))))
      (iterate (or_list (or_nothing (lookup (codes "scp") claims))))

abbrev where_scoped : Json → Result Raised Bool → Result Raised (Option Json)
where_scoped sub (err e) = err e
where_scoped sub (ok found) = ok (if found then some sub else none)

abbrev check_scope : Oidc → Dict Json → Json → Result Raised (Option Json)
check_scope o claims sub =
    if is_empty o.required_scope then ok (some sub) else where_scoped sub (has_scope o claims)

-- The checks on the claims of a genuine token.
unfoldable pub accept_claims : Oidc → Dict Json → Result Raised (Option Json)
unfolding get is_truthy has_scope
accept_claims o claims =
    let sub = get claims (codes "sub") in
    if not (is_truthy sub)
    then ok none
    else if is_nil o.allowed_subjects
    then check_scope o claims sub
    else if not (is_hashable sub)
    then err type_error
    else if is_among sub o.allowed_subjects
    then check_scope o claims sub
    else ok none

abbrev by_claims : Oidc → Option (Dict Json) → Result Raised (Option Json)
by_claims o none = ok none
by_claims o (some claims) = accept_claims o claims

unfoldable pub verify : Oidc → Text → Result Raised (Option Json)
unfolding accept_claims
verify o token = by_claims o (o.decode token)
