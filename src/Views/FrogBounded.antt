-- ===== src/Views/FrogBounded.antt =====
-- What the projection of Frog's board by nix/gateway.py can show.
use rebekah.Prelude.{
  ℕ, ◌≤◌, ◌≡◌, refl, Bool, true, false, not, ◌&&◌, Option, none, some, List, [], ◌∷◌, leb, leb→le,
  ==_iff, sym, ◌∙◌, ◌==◌, length, All, arith, Bool-cases, inl, inr,
}
use mathlib.Core.Path.{subst}
use rebekah.Prelude.Int.{ℤ, negsuc, ◌-ℤ◌, int_ltb}
use rebekah.Prelude.Text.{Text, codes, is_empty, is_member, text_eq_iff, text_eq_refl}
use rebekah.Prelude.Dict.{Dict, lookup}
use rebekah.Json.{
  Json, null, boolean, int, float, str, arr, obj, as_dict, as_list, as_text, as_bool, get,
}
use rebekah.Decisions.Calls.{Trace, World, Config, internal_json}
use rebekah.Views.Stamps.{
  Stamp, ◌>>=◌, check, every, agenda_time, short_text, short_text_le, check-some, Yields, yields,
  refuses, bind-Yields, Yields-some, every-All,
}
use rebekah.Views.Lanes.{names_of, names_of-lanes, same_set-All, agenda_time_le}
use rebekah.Views.Frog.{
  or_list_at, or_nil_list, Item, Board, View, shown, is_projection, lane_names, optional_text,
  short_list, texts_at, files_at, checked_time, card_item, card_items, at_most, board_of, view_by,
  view_of_reply, frog_kanban, lane_id, same_set, lane_title, natural,
}

abbrev pub Within : ℕ → Text → Type 0
Within n s = length s ≤ n

abbrev pub Optional : ℕ → Option Text → Type 0
Optional n none = Unit
Optional n (some s) = Within n s

-- A list of at most 100 texts, each of a bounded length.
abbrev pub Short : ℕ → List Text → Type 0
Short n ss = (length ss ≤ 100) × All (Within n) ss

pub record IsItem (i : Item) : Type 0 where
  pub texts : Within 200 i.id × Within 500 i.title × Within 200 i.priority × Within 200 i.state
  pub optional : Optional 200 i.repository × Optional 200 i.assignee
  pub lane : is_member i.lane lane_names ≡ true
  pub links : (length i.links ≡ 4) × All (Short 200) i.links
  pub files : Short 500 i.files
  pub times : (length i.times ≡ 3) × All (Optional 40) i.times

short_text-Yields : (n : ℕ) (v : Json) → Yields (Within n) (short_text n v)
short_text-Yields n v = by_value (short_text n v) refl
  where
    by_value : (o : Option Text) → short_text n v ≡ o → Yields (Within n) o
    by_value none e = refuses
    by_value (some s) e = yields s (short_text_le n v s e)

optional_text-Yields : (n : ℕ) (v : Json) → Yields (Optional n) (optional_text n v)
optional_text-Yields n null = yields none tt
optional_text-Yields n (boolean b) = refuses
optional_text-Yields n (int m) = refuses
optional_text-Yields n (float t) = refuses
optional_text-Yields n (str s) =
    bind-Yields (short_text n (str s)) λ t e. yields (some t) (short_text_le n (str s) t e)
optional_text-Yields n (arr vs) = refuses
optional_text-Yields n (obj fs) = refuses

short_list-Yields : (n : ℕ) (o : Option (List Json)) → Yields (Short n) (short_list n o)
short_list-Yields n none = refuses
short_list-Yields n (some vs) = elim (Bool-cases (leb (length vs) 100)) [
  | inl e ↦ rw e (
      bounded (every (short_text n) vs)
        (every-All (Within n) (short_text n) (short_text-Yields n) vs) (leb→le _ _ e))
  | inr e ↦ rw e refuses
]
  where
    bounded :
        (o : Option (List Text))
        → Yields (λ ss. All (Within n) ss × (length ss ≡ length vs)) o
        → length vs ≤ 100
        → Yields (Short n) o
    bounded _ (yields ss p) le = yields ss (omega (arith, p.1), p.0)
    bounded _ refuses le = refuses

texts_at-Yields : (card : Dict Json) (key : Text) → Yields (Short 200) (texts_at card key)
unfolding texts_at
texts_at-Yields card key = short_list-Yields 200 (as_list (or_list_at (lookup key card)))

files_at-Yields : (card : Dict Json) → Yields (Short 500) (files_at card)
unfolding files_at
files_at-Yields card =
    short_list-Yields 500 (as_list (or_nil_list (or_list_at (lookup (codes "files") card))))

abbrev link_keys : List Text
link_keys = codes "unmet_dependencies" ∷ codes "dependencies" ∷ codes "blocks" ∷ codes "tags" ∷ []

any-Yields : {A : Type 0} (o : Option A) → Yields (λ _. Unit {0}) o
any-Yields none = refuses
any-Yields (some a) = yields a tt

at_most-le :
    (n : ℕ) (o : Option (List Json)) (vs : List Json) → at_most n o ≡ some vs → length vs ≤ n
at_most-le n none vs e = absurd (cc e)
at_most-le n (some ws) vs e =
    let both : (leb (length ws) n ≡ true) × (ws ≡ vs) = ground arith in
    subst (λ x. length x ≤ n) both.1 (leb→le _ _ both.0)

abbrev pub ids_of : List Item → List Text
ids_of [] = []
ids_of (i ∷ is) = i.id ∷ ids_of is

-- No id is empty or stands twice.
abbrev pub Proper : List Item → Type 0
Proper [] = Unit
Proper (i ∷ is) = (is_empty i.id ≡ false) × (is_member i.id (ids_of is) ≡ false) × Proper is

-- None of the ids was seen before.
abbrev Fresh : List Text → List Item → Type 0
Fresh seen is = (k : Text) → is_member k seen ≡ true → is_member k (ids_of is) ≡ false

record AreItems (seen : List Text) (n : ℕ) (is : List Item) : Type 0 where
  each : All IsItem is
  proper : Proper is
  fresh : Fresh seen is
  count : length is ≡ n

-- A board that is shown: at most 1000 cards, each of them bounded, with ids that are not empty
-- and all different, and as lanes the four of Frog.
pub record IsBoard (b : Board) : Type 0 where
  pub few : length b.items ≤ 1000
  pub each : All IsItem b.items
  pub proper : Proper b.items
  pub lanes : length b.lanes ≡ 4
  pub all_lanes : All (λ name. is_member name (names_of b.lanes) ≡ true) lane_names

abbrev pub IsView : View → Type 0
IsView (shown b) = IsBoard b
IsView _ = Unit

checked_time-Yields : (stamp : Stamp) (v : Json) → Yields (Optional 40) (checked_time stamp v)
unfolding agenda_time
checked_time-Yields stamp null = yields none tt
checked_time-Yields stamp (boolean b) = refuses
checked_time-Yields stamp (int m) = refuses
checked_time-Yields stamp (float t) = refuses
checked_time-Yields stamp (str s) =
    bind-Yields (agenda_time stamp (str s)) λ t e. yields (some s) (agenda_time_le stamp s e)
checked_time-Yields stamp (arr vs) = refuses
checked_time-Yields stamp (obj fs) = refuses

view_by-IsView : (o : Option Board) → Yields IsBoard o → IsView (view_by o)
view_by-IsView _ (yields b p) = p
view_by-IsView _ refuses = tt

module _ (stamp : Stamp) where
  card_item-Yields : (v : Json) → Yields IsItem (card_item stamp v)
  unfolding card_item
  card_item-Yields v = bind-Yields (as_dict v) λ card e0.
      bind-Yields (as_text (get card (codes "lane"))) λ lane e1.
        bind-Yields (check (is_member lane lane_names)) λ u2 e2.
          bind-Yields (as_bool (get card (codes "ready"))) λ r e3.
            bind-Yields (short_text 200 (get card (codes "id"))) λ id e4.
              bind-Yields (short_text 500 (get card (codes "title"))) λ title e5.
                bind-Yields (short_text 200 (get card (codes "priority"))) λ priority e6.
                  bind-Yields (short_text 200 (get card (codes "status"))) λ state e7.
                    bind-Yields (optional_text 200 (get card (codes "repository"))) λ repository e8.
                      bind-Yields (optional_text 200 (get card (codes "assignee"))) λ assignee e9.
                        bind-Yields (every (texts_at card) link_keys) λ links e10.
                          bind-Yields (files_at card) λ files e11.
                            bind-Yields
                              (every (λ key. checked_time stamp (get card key))
                                (codes "updated_at"
                                  ∷ codes "created_at"
                                  ∷ codes "status_observed_at"
                                  ∷ []))
                              λ times e12.
                                let (all, four) =
                                  Yields-some
                                    (every-All (Short 200) (texts_at card) (texts_at-Yields card)
                                      link_keys)
                                    e10 in
                                yields _ (record {
                                  texts = (
                                    short_text_le 200 (get card (codes "id")) id e4,
                                    short_text_le 500 (get card (codes "title")) title e5,
                                    short_text_le 200 (get card (codes "priority")) priority e6,
                                    short_text_le 200 (get card (codes "status")) state e7,
                                  );
                                  optional = (
                                    Yields-some
                                        (optional_text-Yields 200 (get card (codes "repository")))
                                        e8,
                                    Yields-some
                                        (optional_text-Yields 200 (get card (codes "assignee"))) e9,
                                  );
                                  lane = check-some (is_member lane lane_names) e2;
                                  links = (four, all);
                                  files = Yields-some (files_at-Yields card) e11;
                                  times =
                                      let (each, three) =
                                        Yields-some
                                          (every-All (Optional 40)
                                            (λ key. checked_time stamp (get card key))
                                            (λ key. checked_time-Yields stamp (get card key))
                                            (codes "updated_at"
                                              ∷ codes "created_at"
                                              ∷ codes "status_observed_at"
                                              ∷ []))
                                          e12 in
                                      (three, each);
                                })

  card_items-Yields :
      (seen : List Text) (vs : List Json)
      → Yields (AreItems seen (length vs)) (card_items stamp seen vs)
  unfolding card_items
  card_items-Yields seen [] =
      yields [] (record { each = tt; proper = tt; fresh = λ k e. refl; count = refl })
  card_items-Yields seen (v ∷ vs) = bind-Yields (card_item stamp v) λ item e0.
      bind-Yields (check (not (is_empty item.id) && not (is_member item.id seen))) λ u e1.
        bind-Yields (card_items stamp (item.id ∷ seen) vs) λ rest e2.
          let new = check-some (not (is_empty item.id) && not (is_member item.id seen)) e1 in
          let later = Yields-some (card_items-Yields (item.id ∷ seen) vs) e2 in
          yields (item ∷ rest) (record {
            each = (Yields-some (card_item-Yields v) e0, later.each);
            proper = (
              ground arith,
              later.fresh item.id (ground (arith, text_eq_refl item.id)),
              later.proper,
            );
            fresh = λ k e. ground (arith, later.fresh k, text_eq_iff item.id k);
            count = omega (arith, later.count);
          })

  board_of-Yields : (now : ℤ) (d : Dict Json) → Yields IsBoard (board_of stamp now d)
  unfolding board_of
  board_of-Yields now d = bind-Yields (check (is_projection d)) λ u0 e0.
      bind-Yields (agenda_time stamp (get d (codes "observed_at"))) λ observed e1.
        bind-Yields (as_text (get d (codes "observed_at"))) λ written e2.
          bind-Yields (check (not (int_ltb (now -ℤ observed) (negsuc 299999999)))) λ u3 e3.
            bind-Yields (as_list (get d (codes "lanes"))) λ lanes e4.
              bind-Yields (check (length lanes == 4)) λ u5 e5.
                bind-Yields (every (lane_id) lanes) λ ids e6.
                  bind-Yields (check (same_set ids)) λ u7 e7.
                    bind-Yields (at_most 1000 (as_list (get d (codes "cards")))) λ cards e8.
                      bind-Yields (card_items stamp [] cards) λ items e9.
                        bind-Yields (natural (get d (codes "revision"))) λ revision e10.
                          bind-Yields (every (lane_title) lanes) λ titles e11.
                            let cards_read = Yields-some (card_items-Yields [] cards) e9 in
                            let (_, long) =
                              Yields-some
                                (every-All (λ _. Unit {0}) lane_title
                                  (λ v. any-Yields (lane_title v)) lanes)
                                e11 in
                            yields _ (record {
                              few = omega (
                                arith,
                                cards_read.count,
                                at_most-le 1000 (as_list (get d (codes "cards"))) cards e8,
                              );
                              each = cards_read.each;
                              proper = cards_read.proper;
                              lanes =
                                  long
                                  ∙ (==_iff (length lanes) 4).0 (check-some (length lanes == 4) e5);
                              all_lanes =
                                  subst (λ x. All (λ name. is_member name x ≡ true) lane_names)
                                    (sym (names_of-lanes lanes ids titles e6 e11))
                                    (same_set-All ids (check-some (same_set ids) e7));
                            })

  view_of_reply-IsView : (now : ℤ) (r : Option ℕ × Json) → IsView (view_of_reply stamp now r)
  view_of_reply-IsView now (none, v) = tt
  view_of_reply-IsView now (some status, v) = elim (Bool-cases (status == 200)) [
    | inl e ↦ rw e (
        view_by-IsView (as_dict v >>= board_of stamp now)
          (bind-Yields (as_dict v) λ d e'. board_of-Yields now d))
    | inr e ↦ rw e tt
  ]

  -- Whatever Frog answers, the view shows a board only where it has the four lanes, each once, and at most 1000
  -- cards; their ids are not empty and all different, each card stands in one of the four lanes, and
  -- its texts and lists are bounded: a title of 500 characters, a time of 40, any other text of 200, a
  -- file of 500, and 100 of each kind of link and of files.
  pub frog_kanban-IsView :
      (cfg : Config) (w : World) (exposed : Bool) (now : ℤ) (t : Trace)
      → IsView (frog_kanban stamp cfg w exposed now t).0
  unfolding frog_kanban
  frog_kanban-IsView cfg w false now t = tt
  frog_kanban-IsView cfg w true now t =
      view_of_reply-IsView now
        (internal_json cfg w (codes "frog") (codes "GET") (codes "/api/v1/kanban") none none [] t).0
