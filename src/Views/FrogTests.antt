-- ===== src/Views/FrogTests.antt =====
-- A board of Frog that is shown, and one with a card twice that is not.
use rebekah.Prelude.{◌≡◌, refl, true, false, none, some, List, [], ◌∷◌}
use rebekah.Prelude.Int.{pos, ◌-ℤ◌}
use rebekah.Prelude.Text.{Text, codes, text_eq}
use rebekah.Prelude.Dict.{lookup}
use rebekah.Json.{Json, null, str, int, boolean, object, array, get}
use rebekah.Decisions.Calls.{Config, World, internal_json}
use rebekah.Views.Stamps.{Stamp, every, agenda_text, agenda_time}
use rebekah.Views.Frog.{
  Item, Board, unavailable, shown, texts_at, files_at, card_item, card_items, board_of, frog_kanban,
}
use rebekah.Views.FrogBounded.{IsView, frog_kanban-IsView}

abbrev services : Config
services = record {
  internal = (codes "frog", record { host = codes "127.0.0.1"; port = 8 }) ∷ [];
  mcp_gates = [];
  mcp_gate_token = [];
  ephor_oversight_token = [];
  weftmark_write_token = [];
}

abbrev lane : Text → Json
lane id = object ((codes "id", str id) ∷ (codes "title", str id) ∷ [])

abbrev card : Text → Json
card id = object (
    (codes "lane", str (codes "done"))
    ∷ (codes "ready", boolean true)
    ∷ (codes "id", str id)
    ∷ (codes "title", str (codes "t"))
    ∷ (codes "priority", str (codes "p"))
    ∷ (codes "status", str (codes "s"))
    ∷ (codes "tags", array (str (codes "x") ∷ []))
    ∷ (codes "files", null)
    ∷ [])

abbrev answer : List Json → Json
answer cards = object (
    (codes "schema", str (codes "frog.kanban-projection.v0"))
    ∷ (codes "source", str (codes "frog"))
    ∷ (codes "read_only", boolean true)
    ∷ (codes "observed_at", str (codes "Z"))
    ∷ (
      codes "lanes",
      array (
          lane (codes "done")
          ∷ lane (codes "idea")
          ∷ lane (codes "blocked")
          ∷ lane (codes "in_progress")
          ∷ []),
    )
    ∷ (codes "cards", array cards)
    ∷ (codes "revision", int (pos 7))
    ∷ [])

abbrev frog : List Json → World
frog cards = record {
  exchange = λ t r. some (200, record { size = 9; parsed = some (answer cards) });
  ask_gate = λ t r. none;
  append = λ t a. none;
  sha256 = λ s. s;
}

abbrev clock : Stamp
clock s = some (pos 10)

abbrev item : Text → Item
item id = record {
  id = id;
  title = codes "t";
  priority = codes "p";
  state = codes "s";
  repository = none;
  assignee = none;
  lane = codes "done";
  ready = true;
  links = [] ∷ [] ∷ [] ∷ (codes "x" ∷ []) ∷ [];
  files = [];
  times = none ∷ none ∷ none ∷ [];
}

abbrev board : Board
board = record {
  observed_at = codes "Z";
  is_stale = false;
  revision = 7;
  lanes =
      (codes "done", codes "done")
      ∷ (codes "idea", codes "idea")
      ∷ (codes "blocked", codes "blocked")
      ∷ (codes "in_progress", codes "in_progress")
      ∷ [];
  items = item (codes "a") ∷ item (codes "b") ∷ [];
}

frog_kanban_shown :
    (frog_kanban clock services
      (frog (card (codes "a") ∷ card (codes "b") ∷ []))
      true
      (pos 12)
      []).0
    ≡ shown board
unfolding frog_kanban internal_json lookup board_of card_items card_item texts_at files_at get every
    agenda_text agenda_time ◌-ℤ◌ text_eq
frog_kanban_shown = refl

frog_kanban_twice :
    (frog_kanban clock services
      (frog (card (codes "a") ∷ card (codes "a") ∷ []))
      true
      (pos 12)
      []).0
    ≡ unavailable
unfolding frog_kanban internal_json lookup board_of card_items card_item texts_at files_at get every
    agenda_text agenda_time ◌-ℤ◌ text_eq
frog_kanban_twice = refl

frog_kanban-IsView_example :
    IsView
      (frog_kanban clock services
        (frog (card (codes "a") ∷ card (codes "b") ∷ []))
        true
        (pos 12)
        []).0
frog_kanban-IsView_example =
    frog_kanban-IsView clock services (frog (card (codes "a") ∷ card (codes "b") ∷ [])) true
      (pos 12) []
