-- ===== src/Views/Frog.antt =====
-- `v1_frog_kanban` of nix/gateway.py: the projection of Frog's board, which is shown whole where
-- every part of it is as expected, and not at all otherwise.
use rebekah.Prelude.{
  ℕ, Bool, true, false, not, ◌&&◌, ◌||◌, Option, none, some, List, [], ◌∷◌, if◌then◌else◌, leb,
  ◌==◌, length, all,
}
use rebekah.Prelude.Int.{ℤ, pos, negsuc, ◌-ℤ◌, int_ltb}
use rebekah.Prelude.Text.{Text, codes, text_eq, is_empty, is_member}
use rebekah.Prelude.Dict.{Dict, lookup}
use rebekah.Json.{Json, null, str, int, boolean, array, as_dict, as_list, as_text, as_bool, get}
use rebekah.Decisions.Calls.{Trace, World, Config, internal_json}
use rebekah.Views.Stamps.{Stamp, ◌>>=◌, check, every, agenda_text, agenda_time, short_text}

abbrev pub lane_names : List Text
lane_names = codes "idea" ∷ codes "blocked" ∷ codes "in_progress" ∷ codes "done" ∷ []

pub record Item : Type 0 where
  pub id : Text
  pub title : Text
  pub priority : Text
  pub state : Text
  pub repository : Option Text
  pub assignee : Option Text
  pub lane : Text
  pub ready : Bool
  pub links : List (List Text)
  pub files : List Text
  pub times : List (Option Text)

pub record Board : Type 0 where
  pub observed_at : Text
  pub is_stale : Bool
  pub revision : ℕ
  pub lanes : List (Text × Text)
  pub items : List Item

-- A text, or None where the key is optional.
abbrev pub optional_text : ℕ → Json → Option (Option Text)
optional_text limit null = some none
optional_text limit v = short_text limit v >>= λ s. some (some s)

abbrev pub or_list_at : Option Json → Json
or_list_at none = array []
or_list_at (some v) = v

-- `card.get(key, [])` as a list of texts, at most 100, each of a bounded length.
abbrev pub short_list : ℕ → Option (List Json) → Option (List Text)
short_list limit none = none
short_list limit (some vs) = if leb (length vs) 100 then every (short_text limit) vs else none

unfoldable pub texts_at : Dict Json → Text → Option (List Text)
unfolding lookup every
texts_at card key = short_list 200 (as_list (or_list_at (lookup key card)))

abbrev pub or_nil_list : Json → Json
or_nil_list null = array []
or_nil_list v = v

unfoldable pub files_at : Dict Json → Option (List Text)
unfolding lookup every
files_at card = short_list 500 (as_list (or_nil_list (or_list_at (lookup (codes "files") card))))

-- `{lane["id"] for lane in lanes} == expected`
abbrev pub lane_id : Json → Option Text
lane_id v = as_dict v >>= λ d. as_text (get d (codes "id"))

abbrev pub same_set : List Text → Bool
same_set ids =
    all (λ id. is_member id lane_names) ids && all (λ name. is_member name ids) lane_names

abbrev pub lane_title : Json → Option (Text × Text)
lane_title v = as_dict v >>= λ d. as_text (get d (codes "id")) >>= λ id.
    lookup (codes "title") d >>= λ t. agenda_text 100 t >>= λ title. some (id, title)

abbrev pub natural : Json → Option ℕ
natural (int (pos n)) = some n
natural _ = none

abbrev is_text : Text → Json → Bool
is_text s (str t) = text_eq t s
is_text s _ = false

abbrev is_true : Json → Bool
is_true (boolean b) = b
is_true _ = false

abbrev pub is_projection : Dict Json → Bool
is_projection d =
    is_text (codes "frog.kanban-projection.v0") (get d (codes "schema"))
    && is_text (codes "frog") (get d (codes "source"))
    && is_true (get d (codes "read_only"))

abbrev pub at_most : ℕ → Option (List Json) → Option (List Json)
at_most n none = none
at_most n (some vs) = if leb (length vs) n then some vs else none

-- Ages are in microseconds.
abbrev pub is_stale_age : ℤ → Bool
is_stale_age age = int_ltb (pos 30000000) age || int_ltb age (negsuc 4999999)

pub data View : Type 0 where
  disabled : View
  unavailable : View
  shown : Board → View

abbrev pub view_by : Option Board → View
view_by none = unavailable
view_by (some b) = shown b

module _ (stamp : Stamp) where
  -- A time that is checked and kept as it is written.
  abbrev pub checked_time : Json → Option (Option Text)
  checked_time null = some none
  checked_time v = agenda_time stamp v >>= λ t. as_text v >>= λ s. some (some s)

  -- The body of the loop over the cards, up to the check of the id.
  unfoldable pub card_item : Json → Option Item
  unfolding get texts_at files_at every agenda_time
  card_item v = do
    card ← as_dict v
    lane ← as_text (get card (codes "lane"))
    _ ← check (is_member lane lane_names)
    ready ← as_bool (get card (codes "ready"))
    id ← short_text 200 (get card (codes "id"))
    title ← short_text 500 (get card (codes "title"))
    priority ← short_text 200 (get card (codes "priority"))
    state ← short_text 200 (get card (codes "status"))
    repository ← optional_text 200 (get card (codes "repository"))
    assignee ← optional_text 200 (get card (codes "assignee"))
    links ←
        every (texts_at card)
          (codes "unmet_dependencies" ∷ codes "dependencies" ∷ codes "blocks" ∷ codes "tags" ∷ [])
    files ← files_at card
    times ←
        every (λ key. checked_time (get card key))
          (codes "updated_at" ∷ codes "created_at" ∷ codes "status_observed_at" ∷ [])
    some (record {
      id = id;
      title = title;
      priority = priority;
      state = state;
      repository = repository;
      assignee = assignee;
      lane = lane;
      ready = ready;
      links = links;
      files = files;
      times = times;
    })

  -- The loop over the cards, with the ids that were seen.
  unfoldable pub card_items : List Text → List Json → Option (List Item)
  unfolding card_item
  card_items ids [] = some []
  card_items ids (v ∷ vs) = do
    item ← card_item v
    _ ← check (not (is_empty item.id) && not (is_member item.id ids))
    rest ← card_items (item.id ∷ ids) vs
    some (item ∷ rest)

  -- What Frog answered, where all of it passes.
  unfoldable pub board_of : ℤ → Dict Json → Option Board
  unfolding get agenda_time every card_items lookup agenda_text ◌-ℤ◌
  board_of now d = do
    _ ← check (is_projection d)
    observed ← agenda_time stamp (get d (codes "observed_at"))
    written ← as_text (get d (codes "observed_at"))
    _ ← check (not (int_ltb (now -ℤ observed) (negsuc 299999999)))
    lanes ← as_list (get d (codes "lanes"))
    _ ← check (length lanes == 4)
    ids ← every lane_id lanes
    _ ← check (same_set ids)
    cards ← at_most 1000 (as_list (get d (codes "cards")))
    items ← card_items [] cards
    revision ← natural (get d (codes "revision"))
    titles ← every lane_title lanes
    some (record {
      observed_at = written;
      is_stale = is_stale_age (now -ℤ observed);
      revision = revision;
      lanes = titles;
      items = items;
    })

  abbrev pub view_of_reply : ℤ → Option ℕ × Json → View
  view_of_reply now (some status, v) =
      if status == 200 then view_by (as_dict v >>= board_of now) else unavailable
  view_of_reply now (none, v) = unavailable

  module _ (cfg : Config) (w : World) where
    -- `v1_frog_kanban`; `exposed` says that Frog is among the backends.
    unfoldable pub frog_kanban : Bool → ℤ → Trace → View × Trace
    unfolding board_of
    frog_kanban false now t = (disabled, t)
    frog_kanban true now t =
        let (reply, u) =
          internal_json cfg w (codes "frog") (codes "GET") (codes "/api/v1/kanban") none none []
            t in
        (view_of_reply now reply, u)
