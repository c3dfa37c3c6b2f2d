-- ===== src/Views/Runtime.antt =====
-- `runtime_snapshot` of nix/gateway.py: the inventory of the host that is mounted as a file.
use rebekah.Prelude.{
  String, ◌*◌, ◌≡◌, ◌∙◌, Bool, false, ◌&&◌, Option, none, some, [], ◌∷◌, if◌then◌else◌, leb, length,
  all, is_some,
}
use rebekah.Prelude.Int.{ℤ, pos, ◌-ℤ◌, int_ltb, int_leb}
use rebekah.Prelude.Text.{Text, codes, is_empty, text_eq}
use rebekah.Prelude.Dict.{Dict, lookup, insert, lookup-insert}
use rebekah.Json.{Json, str, object, array, as_dict, as_list, as_text, get}
use rebekah.Decisions.Calls.{Raw}
use rebekah.Views.Stamps.{Stamp, ◌>>=◌, check, Yields, yields, bind-Yields}

abbrev pub schema : Text
schema = codes "ragbaz.runtime-status.v1"

-- `base`, with its status and its summary.
abbrev pub base : String → String → Json
base status summary = object (
    (codes "schema", str schema)
    ∷ (codes "status", str (codes status))
    ∷ (codes "summary", array (str (codes summary) ∷ []))
    ∷ [])

abbrev pub not_configured : Json
not_configured =
    base "not-configured" "Host runtime inventory not configured; Minotaur state is unknown."

abbrev pub unavailable : Json
unavailable = base "unavailable" "Host runtime inventory unavailable or invalid."

abbrev pub is_schema : Json → Bool
is_schema (str s) = text_eq s schema
is_schema _ = false

-- Microseconds.
abbrev pub state_of : ℤ → Text
state_of age =
    if int_leb (pos 0) age && int_leb age (pos 120000000)
    then codes "current"
    else if int_ltb (pos 120000000) age
    then codes "stale"
    else codes "clock-skew"

abbrev pub or_unavailable : Option (Dict Json) → Json
or_unavailable none = unavailable
or_unavailable (some d) = object d

status_set :
    (s a : Json) (d : Dict Json)
    → lookup (codes "status") (insert (codes "age_seconds") a (insert (codes "status") s d))
      ≡ some s
unfolding text_eq
status_set s a d =
    lookup-insert (codes "age_seconds") (codes "status") a (insert (codes "status") s d)
    ∙ lookup-insert (codes "status") (codes "status") s d

-- `seconds` is the float that an age in microseconds is, and `read` the first MiB and one byte of a
-- file, or none where it cannot be read.
module _ (stamp : Stamp) (seconds : ℤ → Json) (read : Text → Option Raw) (now : ℤ) where
  unfoldable pub snapshot : Raw → Option (Dict Json)
  unfolding get insert ◌-ℤ◌
  snapshot raw = do
    _ ← check (leb raw.size (1024 * 1024))
    data_read ← raw.parsed
    d ← as_dict data_read
    _ ← check (is_schema (get d (codes "schema")))
    written ← as_text (get d (codes "observed_at"))
    observed ← stamp written
    _ ← as_dict (get d (codes "components"))
    lines ← as_list (get d (codes "summary"))
    _ ← check (leb (length lines) 1024 && all (λ v. is_some (as_text v)) lines)
    some (
        insert (codes "age_seconds") (seconds (now -ℤ observed))
          (insert (codes "status") (str (state_of (now -ℤ observed))) d))

  unfoldable pub runtime_snapshot : Text → Json
  unfolding snapshot
  runtime_snapshot path =
      if is_empty path then not_configured else or_unavailable (read path >>= snapshot)

  -- A status is what the age says, whatever status the file itself holds.
  pub snapshot-Yields :
      (raw : Raw)
      → Yields
          (λ d.
            (written : Text) × (observed : ℤ) × (stamp written ≡ some observed)
            × (lookup (codes "status") d ≡ some (str (state_of (now -ℤ observed)))))
          (snapshot raw)
  unfolding snapshot
  snapshot-Yields raw = bind-Yields (check (leb raw.size (1024 * 1024))) λ u0 e0.
      bind-Yields raw.parsed λ v e1. bind-Yields (as_dict v) λ d e2.
        bind-Yields (check (is_schema (get d (codes "schema")))) λ u3 e3.
          bind-Yields (as_text (get d (codes "observed_at"))) λ written e4.
            bind-Yields (stamp written) λ observed e5.
              bind-Yields (as_dict (get d (codes "components"))) λ parts e6.
                bind-Yields (as_list (get d (codes "summary"))) λ lines e7.
                  bind-Yields
                    (check (leb (length lines) 1024 && all (λ v'. is_some (as_text v')) lines))
                    λ u8 e8. yields _ (
                      written,
                      observed,
                      e5,
                      status_set (str (state_of (now -ℤ observed))) (seconds (now -ℤ observed)) d,
                    )
