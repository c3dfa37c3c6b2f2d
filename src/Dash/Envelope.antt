-- ===== src/Dash/Envelope.antt =====
-- `DashPusher.views` of nix/gateway.py: the views of a push, and what is left out of a push that is too
-- large.
use rebekah.Prelude.{ℕ, ◌*◌, true, ◌&&◌, Option, none, some, [], ◌∷◌, if◌then◌else◌, ltb, length}
use rebekah.Prelude.Int.{pos}
use rebekah.Prelude.Text.{Text, codes}
use rebekah.Prelude.Dict.{Dict, lookup, insert, has_key}
use rebekah.Prelude.Exec.{Result, Raised, ok}
use rebekah.Json.{Json, null, str, int, boolean, object, array, as_dict, get}
use rebekah.Json.Dumps.{dumps_unsorted}
use rebekah.Views.Kanban.{◌>>=◌, attention, change_sets}

-- What the views of a push are made of: the board of WeftMark with the times at which its two views
-- are taken, and the views that other parts of the gateway compute.
pub record Parts : Type 0 where
  pub kanban : Json
  pub attention_at : Text
  pub change_sets_at : Text
  pub system : Json
  pub oversight : Json
  pub daily_agenda : Dict Json
  pub change_requests : Json
  pub frog_kanban : Dict Json

-- `DASH_MAX_PUSH`
abbrev pub dash_max_push : ℕ
dash_max_push = 512 * 1024

-- `len(json.dumps(body, separators=(",", ":")).encode())`: what json.dumps prints is ASCII.
unfoldable pub size : Dict Json → ℕ
unfolding dumps_unsorted
size views = length (
    dumps_unsorted (
      object (
        (codes "schema", str (codes "rebekah.dash-push.v1"))
        ∷ (codes "views", object views)
        ∷ (codes "schedule", object ((codes "next_push_at", int (pos 9999999999)) ∷ []))
        ∷ [])))

abbrev pub dict_of : Option (Dict Json) → Dict Json
dict_of none = []
dict_of (some d) = d

-- `views[key]`, which is a dict at the two keys where it is used.
abbrev pub view_at : Text → Dict Json → Dict Json
view_at key views = dict_of (as_dict (get views key))

unfoldable pub without_frog : Dict Json → Dict Json
unfolding get insert lookup
without_frog views =
    let frog = view_at (codes "frog-kanban") views in
    insert (codes "frog-kanban")
      (object (
        (codes "schema", get frog (codes "schema"))
        ∷ (codes "source", str (codes "rebekah-gateway"))
        ∷ (codes "observed_at", get frog (codes "observed_at"))
        ∷ (codes "status", str (codes "unavailable"))
        ∷ (codes "stale", boolean true)
        ∷ (codes "read_only", boolean true)
        ∷ (codes "source_observed_at", null)
        ∷ (codes "revision", null)
        ∷ (codes "lanes", array [])
        ∷ (codes "items", array [])
        ∷ []))
      views

unfoldable pub without_agenda : Dict Json → Dict Json
unfolding get insert lookup
without_agenda views =
    let agenda = view_at (codes "daily-agenda") views in
    insert (codes "daily-agenda")
      (object (
        (codes "schema", get agenda (codes "schema"))
        ∷ (codes "source", str (codes "rebekah-gateway"))
        ∷ (codes "observed_at", get agenda (codes "observed_at"))
        ∷ (codes "status", str (codes "unavailable"))
        ∷ (codes "stale", boolean true)
        ∷ (codes "source_observed_at", null)
        ∷ (codes "collection_error_count", int (pos 0))
        ∷ (codes "items", array [])
        ∷ []))
      views

-- The two checks on the size, one after the other.
unfoldable pub trim_frog : Dict Json → Dict Json
unfolding without_frog size
trim_frog views =
    if has_key (codes "frog-kanban") views && ltb dash_max_push (size views)
    then without_frog views
    else views

unfoldable pub trim_agenda : Dict Json → Dict Json
unfolding without_agenda size
trim_agenda views = if ltb dash_max_push (size views) then without_agenda views else views

abbrev pub whole : Parts → Json → Json → Dict Json
whole p a c =
    (codes "system", p.system)
    ∷ (codes "attention", a)
    ∷ (codes "change-sets", c)
    ∷ (codes "oversight", p.oversight)
    ∷ (codes "daily-agenda", object p.daily_agenda)
    ∷ (codes "change-requests", p.change_requests)
    ∷ (codes "frog-kanban", object p.frog_kanban)
    ∷ []

-- `views`
unfoldable pub views : Parts → Result Raised (Dict Json)
unfolding attention change_sets trim_frog trim_agenda
views p = do
  a ← attention p.attention_at p.kanban
  c ← change_sets p.change_sets_at p.kanban
  ok (trim_agenda (trim_frog (whole p a c)))
