-- ===== src/Http/Passing.antt =====
-- Which headers nix/gateway.py passes on, to the backend and back to the client.
use rebekah.Prelude.{
  ◌≡◌, refl, Bool, false, not, ◌&&◌, ◌||◌, Option, none, some, [], ◌∷◌, arith, if◌then◌else◌,
  Bool-cases, inl, inr, sym, ap, ◌∙◌,
}
use rebekah.Prelude.Text.{Text, codes, text_eq, text_eq_iff, lower}
use rebekah.Prelude.Dict.{Dict, lookup, insert, lookup-insert, lookup-nil}
use rebekah.Http.Message.{Headers, header}
use rebekah.Http.Upstream.{
  Backend, is_hop, or_empty, basic, host_header, with_credentials, passed_on, forward_headers,
}

-- Whether a header is spelled so among the client's.
abbrev pub is_named : Text → Headers → Bool
is_named k [] = false
is_named k ((key, v) ∷ hs) = text_eq key k || is_named k hs

abbrev pub credential : Option (Text × Text) → Option Text
credential none = none
credential (some (user, pw)) = some (basic user pw)

-- The header of that spelling that a backend gets: the gateway's own credential, the gateway's
-- name, the backend's own host, and then what the client sent, less the hop-by-hop headers.
abbrev pub expected : Backend → Headers → Text → Option Text
expected b hs k =
    if text_eq (codes "Authorization") k
    then credential b.credentials
    else if text_eq (codes "X-Forwarded-By") k
    then some (codes "rebekah-gateway")
    else if text_eq (codes "Host") k
    then some (host_header b)
    else if not (is_hop k) && is_named k hs
    then some (or_empty (header k hs))
    else none

module _ (all : Headers) (k : Text) where
  lookup-passed_on :
      (hs : Headers) (fwd : Dict Text)
      → lookup k (passed_on all hs fwd)
        ≡ (if not (is_hop k) && is_named k hs then some (or_empty (header k all)) else lookup k fwd)
  unfolding passed_on
  lookup-passed_on [] fwd = ground arith
  lookup-passed_on ((key, v) ∷ hs) fwd = elim (Bool-cases (text_eq key k)) [
    | inl e ↦
        let q = (text_eq_iff key k).0 e in
        ground (
          arith,
          lookup-passed_on hs fwd,
          lookup-passed_on hs (insert key (or_empty (header key all)) fwd),
          lookup-insert key k (or_empty (header key all)) fwd,
          q,
          e,
        )
    | inr e ↦ ground (
      arith,
      lookup-passed_on hs fwd,
      lookup-passed_on hs (insert key (or_empty (header key all)) fwd),
      lookup-insert key k (or_empty (header key all)) fwd,
      e,
    )
  ]

-- What stands under the gateway's own credential.
lookup-with_credentials :
    (c : Option (Text × Text)) (fwd : Dict Text) (k : Text)
    → lookup (codes "Authorization") fwd ≡ none
    → lookup k (with_credentials c fwd)
      ≡ (if text_eq (codes "Authorization") k then credential c else lookup k fwd)
lookup-with_credentials none fwd k h = elim (Bool-cases (text_eq (codes "Authorization") k)) [
  | inl e ↦
      let q = (text_eq_iff (codes "Authorization") k).0 e in
      rw (e) (sym (ap (λ j. lookup j fwd) q) ∙ h)
  | inr e ↦ rw (e) refl
]
lookup-with_credentials (some (user, pw)) fwd k h =
    lookup-insert (codes "Authorization") k (basic user pw) fwd

-- The client's own Authorization is not among what is passed on.
lookup-unauthorized :
    (b : Backend) (hs : Headers)
    → lookup (codes "Authorization") (
        insert
          (codes "X-Forwarded-By")
          (codes "rebekah-gateway")
          (insert (codes "Host") (host_header b) (passed_on hs hs [])))
      ≡ none
unfolding text_eq lower
lookup-unauthorized b hs =
    rw (lookup-insert, lookup-insert, lookup-passed_on) (lookup-nil (codes "Authorization"))

-- A backend gets, under each spelling of a header's name, exactly the header that is expected: the
-- client's own Authorization and Host never reach it, under any spelling.
pub lookup-forward_headers :
    (b : Backend) (hs : Headers) (k : Text) → lookup k (forward_headers b hs) ≡ expected b hs k
unfolding forward_headers
lookup-forward_headers b hs k =
    rw
      (
        lookup-with_credentials b.credentials _ k (lookup-unauthorized b hs),
        lookup-insert,
        lookup-insert,
        lookup-passed_on,
        lookup-nil,
      )
      refl
