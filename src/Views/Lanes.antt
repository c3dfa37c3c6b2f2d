-- ===== src/Views/Lanes.antt =====
-- The lanes and the times in the projection of Frog's board by nix/gateway.py.
use rebekah.Prelude.{ap, ◌≤◌, ◌≡◌, sym, ◌∙◌, true, some, List, [], ◌∷◌, map, All, length, arith}
use mathlib.Core.Path.{subst}
use rebekah.Prelude.Int.{ℤ}
use rebekah.Prelude.Text.{Text, codes, is_member}
use rebekah.Prelude.Dict.{lookup}
use rebekah.Json.{Json, str, as_dict, as_text, get}
use rebekah.Views.Stamps.{Stamp, every, agenda_text, agenda_time, bind_some}
use rebekah.Views.Frog.{lane_names, lane_id, same_set, lane_title}

abbrev pub names_of : List (Text × Text) → List Text
names_of lanes = map (λ l. l.0) lanes

-- A lane is shown under the id that was checked.
lane_title-id :
    (v : Json) (id : Text) (lane : Text × Text)
    → lane_id v ≡ some id
    → lane_title v ≡ some lane
    → lane.0 ≡ id
lane_title-id v id lane ei et =
    let (d, ed, e1) = bind_some (as_dict v) _ et in
    let (i, i_read, e2) = bind_some (as_text (get d (codes "id"))) _ e1 in
    let (x, _, e3) = bind_some (lookup (codes "title") d) _ e2 in
    let (title, _, e4) = bind_some (agenda_text 100 x) _ e3 in
    let (d', ed', e1') = bind_some (as_dict v) _ ei in
    let both : some d ≡ some d' = sym ed ∙ ed' in
    let same : as_text (get d (codes "id")) ≡ some id =
      subst (λ y. as_text (get y (codes "id")) ≡ some id) (sym (cc both)) e1' in
    let q : some i ≡ some id = sym i_read ∙ same in
    let shown : some (i, title) ≡ some lane = e4 in
    subst (λ l. l.0 ≡ id) {x = (i, title)} {y = lane} (cc shown) (cc q)

pub names_of-lanes :
    (vs : List Json) (ids : List Text) (lanes : List (Text × Text))
    → every lane_id vs ≡ some ids
    → every lane_title vs ≡ some lanes
    → names_of lanes ≡ ids
unfolding every
names_of-lanes [] ids lanes ei et =
    let qi : [] ≡ ids = cc ei in let ql : [] ≡ lanes = cc et in ap names_of (sym ql) ∙ qi
names_of-lanes (v ∷ vs) ids lanes ei et =
    let (i, e1, e2) = bind_some (lane_id v) _ ei in
    let (is, e3, e4) = bind_some (every lane_id vs) _ e2 in
    let (l, f1, f2) = bind_some (lane_title v) _ et in
    let (ls, f3, f4) = bind_some (every lane_title vs) _ f2 in
    let h = lane_title-id v i l e1 f1 in
    let t = names_of-lanes vs is ls e3 f3 in
    let ql : l ∷ ls ≡ lanes = cc f4 in
    let qi : i ∷ is ≡ ids = cc e4 in
    let both : l.0 ∷ names_of ls ≡ i ∷ is = cc (h, t) in ap names_of (sym ql) ∙ both ∙ qi

-- All four of the names are among the ids.
pub same_set-All :
    (ids : List Text) → same_set ids ≡ true → All (λ name. is_member name ids ≡ true) lane_names
same_set-All ids e = ground arith

pub agenda_time_le :
    (stamp : Stamp) (s : Text) {t : ℤ} → agenda_time stamp (str s) ≡ some t → length s ≤ 40
unfolding agenda_time
agenda_time_le stamp s e = ground arith
