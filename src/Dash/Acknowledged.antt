-- ===== src/Dash/Acknowledged.antt =====
-- `report` of nix/gateway.py's `DashPusher`: which results it keeps for the next round.
use rebekah.Prelude.{◌≡◌, refl, none, some, List, [], ◌∷◌, arith, if◌then◌else◌, map, ap, ◌∙◌}
use rebekah.Prelude.Text.{Text, codes, is_member}
use rebekah.Prelude.Dict.{Dict, lookup, erase, lookup-erase, lookup-nil}
use rebekah.Json.{Json, str, object, array, as_list}
use rebekah.Decisions.Reports.{Report}
use rebekah.Dash.Pusher.{Settings, Pusher, report_json}
use rebekah.Dash.Calls.{Network, Answer, call}
use rebekah.Dash.Commands.{answer_field, drop_acknowledged, settle, send_results, report}

-- What an acknowledgement leaves: of a list of ids, all but those; without a list, nothing.
lookup-drop_acknowledged :
    (ids : List Text) (d : Dict Report) (cid : Text)
    → lookup cid (drop_acknowledged (map str ids) d).1
      ≡ (if is_member cid ids then none else lookup cid d)
unfolding drop_acknowledged
lookup-drop_acknowledged [] d cid = refl
lookup-drop_acknowledged (id ∷ ids) d cid =
    ground (arith, lookup-drop_acknowledged ids (erase id d) cid, lookup-erase id cid d)

-- What `report` sends.
abbrev pub results_body : Dict Report → Json
results_body d = object ((codes "results", array (map (λ x. report_json x.1) d)) ∷ [])

settled :
    (p : Pusher) (a : Answer) (ids : List Text) (cid : Text)
    → a.status ≡ 200
    → as_list (answer_field a.parsed (codes "acknowledged")) ≡ some (map str ids)
    → lookup cid (settle (some a) p).1.unreported
      ≡ (if is_member cid ids then none else lookup cid p.unreported)
settled p a ids cid es el = rw (es, el) (lookup-drop_acknowledged ids p.unreported cid)

sent :
    (cfg : Settings) (n : Network) (d : Dict Report) (p : Pusher) (a : Answer) (ids : List Text)
    (cid : Text)
    → p.unreported ≡ d
    → call cfg n (codes "POST") (codes "/api/connector/results") (some (results_body d)) ≡ some a
    → a.status ≡ 200
    → as_list (answer_field a.parsed (codes "acknowledged")) ≡ some (map str ids)
    → lookup cid (send_results cfg n d p).1.unreported
      ≡ (if is_member cid ids then none else lookup cid p.unreported)
sent cfg n [] p a ids cid ed ea es el = ground (arith, lookup-nil {V = Report} cid, ed)
sent cfg n (e ∷ d) p a ids cid ed ea es el =
    ap (λ o. lookup cid (settle o p).1.unreported) ea ∙ settled p a ids cid es el

-- Where Dash acknowledges a list of ids, the results of these are dropped and every other one is kept
-- for the next round.
pub report-acknowledged :
    (cfg : Settings) (n : Network) (p : Pusher) (a : Answer) (ids : List Text) (cid : Text)
    → call cfg n (codes "POST") (codes "/api/connector/results") (some (results_body p.unreported))
      ≡ some a
    → a.status ≡ 200
    → as_list (answer_field a.parsed (codes "acknowledged")) ≡ some (map str ids)
    → lookup cid (report cfg n p).1.unreported
      ≡ (if is_member cid ids then none else lookup cid p.unreported)
unfolding report
report-acknowledged cfg n p a ids cid ea es el = sent cfg n p.unreported p a ids cid refl ea es el
