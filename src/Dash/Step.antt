-- ===== src/Dash/Step.antt =====
-- `DashPusher.step` of nix/gateway.py, and the round that `run` makes of it.
use rebekah.Prelude.{
  ℕ, suc, ◌-◌, ◌*◌, Bool, true, false, not, ◌&&◌, ◌||◌, Option, none, some, [], ◌∷◌, map, select,
  if◌then◌else◌, leb, ◌==◌,
}
use rebekah.Prelude.Int.{ℤ}
use rebekah.Prelude.Text.{Text, codes, text_eq}
use rebekah.Prelude.Dict.{Dict}
use rebekah.Prelude.Exec.{Result, ok, err, Raised, Exec, continue}
use rebekah.Json.{Json, int, str, object, is_truthy, dict_or_nil}
use rebekah.Json.Dumps.{dumps}
use rebekah.Decisions.Calls.{Trace, World, Config}
use rebekah.Dash.Pusher.{Settings, Pusher, second}
use rebekah.Dash.Calls.{Network, Answer, call}
use rebekah.Dash.Commands.{answer_field, take_commands, report}
use rebekah.Dash.Schedule.{failed, poll_interval, wait, throttled, max_backoff}

-- What a round finds: the clock, `views()` or what it raised, the deadline that the push announces,
-- and the network.
pub record Round : Type 0 where
  pub now : ℕ
  pub views : Result Raised (Dict Json)
  pub next_push_at : ℤ
  pub network : Network

-- `{f: v for f, v in view.items() if f != "observed_at"}` for each view.
abbrev stable : Text × Json → Text × Json
stable (name, view) =
    (name, object (select (λ e. not (text_eq e.0 (codes "observed_at"))) (dict_or_nil (some view))))

unfoldable pub digest : (Text → Text) → Dict Json → Text
digest sha256 views = sha256 (dumps (object (map stable views)))

abbrev pub is_new : Option Text → Text → Bool
is_new none d = true
is_new (some last) d = not (text_eq d last)

abbrev pub is_over : Option ℕ → ℕ → ℕ → Bool
is_over none span now = true
is_over (some last) span now = leb (span * second) (now - last)

-- Whether this round pushes.
unfoldable pub is_due : Settings → ℕ → Text → Pusher → Bool
is_due cfg now d p =
    p.refresh || is_new p.last_digest d || is_over p.last_push cfg.dash_heartbeat now

-- Whether it is too early to ask.
abbrev pub asked_lately : Pusher → ℕ → Bool
asked_lately p now = not (is_over p.last_call p.poll_every now)

abbrev pub push_body : Round → Dict Json → Json
push_body r views = object (
    (codes "schema", str (codes "rebekah.dash-push.v1"))
    ∷ (codes "views", object views)
    ∷ (codes "schedule", object ((codes "next_push_at", int r.next_push_at) ∷ []))
    ∷ [])

unfoldable pub exchange : Settings → Round → Bool → Dict Json → Option Answer
exchange cfg r due views =
    if due
    then call cfg r.network (codes "POST") (codes "/api/connector/push") (some (push_body r views))
    else call cfg r.network (codes "GET") (codes "/api/connector/pending") none

-- What is made of an answer, by its status.
pub data Standing : Type 0 where
  rejected throttling failing accepted : Standing

unfoldable pub standing : ℕ → Standing
standing status =
    if status == 401 || status == 403
    then rejected
    else if status == 429
    then throttling
    else if status == 200
    then accepted
    else failing

module _ (cfg : Settings) (ccfg : Config) (w : World) (wall : Trace → ℕ) (of_float : Text → ℕ) where
  module _ (r : Round) (d : Text) where
    -- `bool((data or {}).get("refresh_requested")) or decided`
    abbrev asks_again : Answer → Bool → Bool
    asks_again a decided = is_truthy (answer_field a.parsed (codes "refresh_requested")) || decided

    abbrev pub finish : Bool → Answer → Bool → Exec Pusher ℕ
    finish true a decided p =
        let q = record p {
          last_digest = some d;
          last_push = some r.now;
          refresh = asks_again a decided;
        } in
        (ok (if decided then 0 else wait cfg r.now q), q)
    finish false a decided p =
        let q = record p { refresh = asks_again a decided } in
        (ok (if asks_again a decided then 0 else wait cfg r.now q), q)

    abbrev pub report_then : Bool → Answer → Bool → Exec Pusher ℕ
    report_then due a decided p =
        let (sent, q) = report cfg r.network p in continue sent (λ u. finish due a decided) q

    -- Mirrors take no commands, and report none.
    abbrev pub decide_then : Bool → Bool → Answer → Exec Pusher ℕ
    decide_then false due a p = finish due a false p
    decide_then true due a p =
        let (decided, q) = take_commands ccfg w wall a.parsed p in
        continue decided (report_then due a) q

    unfoldable pub accept : Bool → Answer → Exec Pusher ℕ
    accept due a p =
        decide_then cfg.commands due a
          (record p { failures = 0; poll_every = poll_interval cfg a.parsed })

    abbrev pub fail_back : Pusher → Result Raised ℕ × Pusher
    fail_back p = let (delay, q) = failed cfg p in (ok delay, q)

    abbrev pub on_standing : Bool → Answer → Standing → Exec Pusher ℕ
    on_standing due a rejected p =
        (ok (max_backoff * second), record p { failures = suc p.failures })
    on_standing due a throttling p = (throttled of_float cfg a.retry a.parsed, p)
    on_standing due a failing p = fail_back p
    on_standing due a accepted p = accept due a p

    unfoldable pub handle_answer : Bool → Option Answer → Exec Pusher ℕ
    handle_answer due none p = fail_back p
    handle_answer due (some a) p = on_standing due a (standing a.status) p

  -- Nothing new to say, and not yet time to ask; or a call.
  abbrev pub call_or_wait : Round → Dict Json → Text → Bool → Bool → Exec Pusher ℕ
  call_or_wait r views d due true p = (ok (wait cfg r.now p), p)
  call_or_wait r views d due false p =
      handle_answer r d due (exchange cfg r due views) (record p { last_call = some r.now })

  abbrev pub step_on : Round → Dict Json → Text → Exec Pusher ℕ
  step_on r views d p =
      let due = is_due cfg r.now d p in
      call_or_wait r views d due (not due && asked_lately p r.now) p

  abbrev pub step_views : (Text → Text) → Round → Result Raised (Dict Json) → Exec Pusher ℕ
  step_views sha256 r (err e) p = (err e, p)
  step_views sha256 r (ok views) p = step_on r views (digest sha256 views) p

  -- `step`
  unfoldable pub step : (Text → Text) → Round → Exec Pusher ℕ
  step sha256 r = step_views sha256 r r.views

  -- One turn of `run`: no exception ends it.
  abbrev pub caught : Result Raised ℕ → Pusher → ℕ × Pusher
  caught (ok delay) p = (delay, p)
  caught (err e) p = failed cfg p

  unfoldable pub turn : (Text → Text) → Round → Pusher → ℕ × Pusher
  turn sha256 r p = let (delay, q) = step sha256 r p in caught delay q
