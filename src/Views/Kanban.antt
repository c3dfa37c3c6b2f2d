-- ===== src/Views/Kanban.antt =====
-- `v1_attention` and `v1_changesets` of nix/gateway.py: the board as a list of cards that want
-- attention, and as a list of change sets. A card that is no JSON object raises, as `card.get` does.
use rebekah.Prelude.{
  String, Bool, true, false, none, some, List, [], ◌∷◌, ◌++◌, ◌≡◌, refl, length, map, if◌then◌else◌,
}
use rebekah.Prelude.Int.{pos}
use rebekah.Prelude.Text.{Text, codes, text_eq}
use rebekah.Prelude.Dict.{Dict}
use rebekah.Prelude.Exec.{Result, ok, err, Raised}
use rebekah.Json.{
  Json, boolean, int, str, object, array, as_dict, get, get_of, iterate, or_value, or_dict, or_list,
}

infixl 5 ◌>>=◌
abbrev pub ◌>>=◌ : {A B : Type 0} → Result Raised A → (A → Result Raised B) → Result Raised B
ok value >>= next = next value
err raised >>= next = err raised

-- A bind that returns has both of its parts return.
pub bind_returns :
    {A B : Type 0} (first : Result Raised A) (next : A → Result Raised B) {last : B}
    → (first >>= next) ≡ ok last
    → (value : A) × (first ≡ ok value) × (next value ≡ ok last)
bind_returns (ok value) next returned = (value, refl, returned)
bind_returns (err raised) next returned = cc

-- `[y for x in xs for y in f(x)]`, where `f` may raise.
unfoldable pub gather :
    {A B : Type 0} → (A → Result Raised (List B)) → List A → Result Raised (List B)
gather f [] = ok []
gather f (x ∷ xs) = let rest = gather f xs in f x >>= λ ys. rest >>= λ zs. ok (ys ++ zs)

-- `(v.get(key) or [])` as the values that a loop takes.
unfoldable pub values : Json → Text → Result Raised (List Json)
values v key = get_of v key >>= λ w. iterate (or_list w)

-- `card.get("title") or card.get("id")`
unfoldable pub title_of : Dict Json → Json
title_of card = or_value (get card (codes "title")) (get card (codes "id"))

abbrev pub as_card : Json → Result Raised (Dict Json)
as_card v = get_of v (codes "id") >>= λ _. elim (as_dict v) [ none ↦ ok [] | some d ↦ ok d ]

abbrev pub attention_item : String → Bool → Dict Json → Json → Json
attention_item kind with_change_set card reason = object (
    (codes "id", get card (codes "id"))
    ∷ (codes "kind", str (codes kind))
    ∷ (codes "title", title_of card)
    ∷ (codes "lane", get card (codes "lane"))
    ∷ (codes "reason", reason)
    ∷ ((if with_change_set then (codes "change_set", get card (codes "id")) ∷ [] else [])
        ++ (codes "source", str (codes "weftmark")) ∷ []))

-- The items of one card: one for each reason.
unfoldable pub card_items : String → Bool → Json → Result Raised (List Json)
card_items kind with_change_set v = do
  card ← as_card v
  reasons ← values v (codes "attention")
  ok (map (attention_item kind with_change_set card) reasons)

unfoldable pub attention_items : Json → Result Raised (List Json)
attention_items kanban = do
  cards ← values kanban (codes "cards")
  change_sets ← gather (card_items "change_set" true) cards
  plan_cards ← values kanban (codes "plan_cards")
  tasks ← gather (card_items "task" false) plan_cards
  ok (change_sets ++ tasks)

-- The envelope of both lists.
abbrev pub listing : String → Text → Bool → List Json → Json
listing schema now stale items = object (
    (codes "schema", str (codes schema))
    ∷ (codes "observed_at", str now)
    ∷ (codes "source", str (codes "rebekah-gateway"))
    ∷ (codes "count", int (pos (length items)))
    ∷ (codes "stale", boolean stale)
    ∷ (codes "items", array items)
    ∷ [])

-- Without a board the view is stale and empty.
abbrev pub projected :
    String → Text → (Json → Result Raised (List Json)) → Json → Result Raised Json
projected schema now items kanban = elim (as_dict kanban) [
  | none ↦ ok (listing schema now true [])
  | some d ↦ items kanban >>= λ found. ok (listing schema now false found)
]

-- `v1_attention`
unfoldable pub attention : Text → Json → Result Raised Json
attention now kanban = projected "rebekah.attention.v1" now attention_items kanban

abbrev pub is_change_set : Dict Json → Bool
is_change_set card = elim (get card (codes "kind")) [
  | str s ↦ text_eq s (codes "change_set")
  | _ ↦ false
]

-- The row of a card: `card.get("evidence") or {}` may hold anything.
unfoldable pub change_set_row : Dict Json → Result Raised Json
change_set_row card = do
  total ← get_of (or_dict (get card (codes "evidence"))) (codes "total")
  current ← get_of (or_dict (get card (codes "evidence"))) (codes "current")
  ok (
      object (
        (codes "id", get card (codes "id"))
        ∷ (codes "title", title_of card)
        ∷ (codes "lane", get card (codes "lane"))
        ∷ (codes "lifecycle_state", get card (codes "lifecycle_state"))
        ∷ (codes "readiness", get card (codes "readiness"))
        ∷ (codes "evidence", object ((codes "total", total) ∷ (codes "current", current) ∷ []))
        ∷ (codes "attention", or_list (get card (codes "attention")))
        ∷ []))

unfoldable pub card_rows : Json → Result Raised (List Json)
card_rows v = do
  card ← as_card v
  if is_change_set card then (do row ← change_set_row card; ok (row ∷ [])) else ok []

unfoldable pub change_set_items : Json → Result Raised (List Json)
change_set_items kanban = do cards ← values kanban (codes "cards"); gather card_rows cards

-- `v1_changesets`
unfoldable pub change_sets : Text → Json → Result Raised Json
change_sets now kanban = projected "rebekah.change-set-list.v1" now change_set_items kanban
