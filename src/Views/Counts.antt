-- ===== src/Views/Counts.antt =====
-- How many items the views of nix/gateway.py list: nothing on the board is dropped or listed twice.
use rebekah.Prelude.{
  ℕ, ◌+◌, ◌≡◌, refl, Bool, true, false, none, some, List, [], ◌∷◌, ◌++◌, length, map, length-append,
  arith, if◌then◌else◌, String,
}
use rebekah.Prelude.Text.{codes}
use rebekah.Prelude.Exec.{Result, ok, err, Raised}
use rebekah.Json.{Json, as_dict, get_of}
use rebekah.Views.Kanban.{
  bind_returns, ◌>>=◌, gather, values, card_items, as_card, attention_item, attention_items,
  is_change_set, card_rows, change_set_items,
}

-- The sum of a measure over a list.
abbrev pub total : {A : Type 0} → (A → ℕ) → List A → ℕ
total f [] = 0
total f (x ∷ xs) = f x + total f xs

length-map : {A B : Type 0} (f : A → B) (xs : List A) → length (map f xs) ≡ length xs
length-map f [] = refl
length-map f (x ∷ xs) = omega (arith, length-map f xs)

-- Two lists that are joined, where neither raises.
joined :
    {A : Type 0} (r s : Result Raised (List A)) (zs : List A)
    → (r >>= λ xs. s >>= λ ys. ok (xs ++ ys)) ≡ ok zs
    → (xs ys : List A) × (r ≡ ok xs) × (s ≡ ok ys) × (length zs ≡ length xs + length ys)
joined (ok xs) (ok ys) zs e = (xs, ys, refl, refl, ground (arith, length-append xs ys))
joined (ok xs) (err b) zs e = cc
joined (err a) s zs e = cc

-- A gathered list is as long as its parts.
length-gather :
    {A B : Type 0} (f : A → Result Raised (List B)) (size : A → ℕ) (xs : List A) (ys : List B)
    → ((x : A) (zs : List B) → f x ≡ ok zs → length zs ≡ size x)
    → gather f xs ≡ ok ys
    → length ys ≡ total size xs
unfolding gather
length-gather f size [] ys h e = ground arith
length-gather f size (x ∷ xs) ys h e =
    let (vs, ws, ea, eb, n) = joined (f x) (gather f xs) ys e in
    omega (arith, h x vs ea, length-gather f size xs ws h eb)

-- How many reasons a card gives for attention.
abbrev pub reasons : Json → ℕ
reasons v = elim (values v (codes "attention")) [ ok rs ↦ length rs | err e ↦ 0 ]

length-card_items :
    (kind : String) (b : Bool) (v : Json) (items : List Json)
    → card_items kind b v ≡ ok items
    → length items ≡ reasons v
unfolding card_items
length-card_items kind b v items e =
    let (card, ec, more) =
      bind_returns (as_card v)
        (λ card. values v (codes "attention") >>= λ rs. ok (map (attention_item kind b card) rs))
        e in
    let (rs, er, e') =
      bind_returns (values v (codes "attention")) (λ rs. ok (map (attention_item kind b card) rs))
        more in
    ground (arith, length-map (attention_item kind b card) rs)

-- The attention view lists one item for each reason of each card and of each plan card.
pub length-attention_items :
    (kanban : Json) (cards plan_cards items : List Json)
    → values kanban (codes "cards") ≡ ok cards
    → values kanban (codes "plan_cards") ≡ ok plan_cards
    → attention_items kanban ≡ ok items
    → length items ≡ total reasons cards + total reasons plan_cards
unfolding attention_items
length-attention_items kanban cards plan_cards items ec ep e =
    let (xs, ys, ex, ey, n) =
      joined (gather (card_items "change_set" true) cards)
        (gather (card_items "task" false) plan_cards) items (simp (ec, ep) at e) in
    omega (
      arith,
      length-gather (card_items "change_set" true) reasons cards xs
          (length-card_items "change_set" true) ex,
      length-gather (card_items "task" false) reasons plan_cards ys (length-card_items "task" false)
          ey,
    )

-- One for a change set, nothing for any other card.
abbrev pub counts_as : Json → ℕ
counts_as v = elim (as_dict v) [ none ↦ 0 | some card ↦ if is_change_set card then 1 else 0 ]

length-card_rows : (v : Json) (rows : List Json) → card_rows v ≡ ok rows → length rows ≡ counts_as v
unfolding card_rows get_of
length-card_rows v rows e = ground arith

-- The list of change sets has one row for each card of that kind.
pub length-change_set_items :
    (kanban : Json) (cards rows : List Json)
    → values kanban (codes "cards") ≡ ok cards
    → change_set_items kanban ≡ ok rows
    → length rows ≡ total counts_as cards
unfolding change_set_items
length-change_set_items kanban cards rows ec e =
    length-gather card_rows counts_as cards rows length-card_rows (simp ec at e)
