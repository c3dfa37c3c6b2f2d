-- ===== src/Dash/Urgency.antt =====
-- That nix/gateway.py's `DashPusher` waits no time only to push.
use rebekah.Prelude.{
  ℕ, suc, ◌*◌, ◌^◌, ◌≤◌, min, ◌≡◌, Bool, true, false, Option, none, some, arith, if◌then◌else◌, inl,
  inr, Bool-cases,
}
use rebekah.Prelude.Int.{ℤ}
use rebekah.Prelude.Text.{Text}
use rebekah.Prelude.Dict.{Dict}
use rebekah.Prelude.Exec.{Result, ok, err, Raised, continue}
use rebekah.Json.{Json, null, boolean, int, float, str, arr, obj, is_truthy}
use rebekah.Decisions.Calls.{Trace, World, Config}
use rebekah.Dash.Pusher.{Settings, Pusher, second}
use rebekah.Dash.Calls.{Answer}
use rebekah.Dash.Schedule.{
  backoff, failed, until_push, until_poll, wait, asked_wait, by_answer, throttled,
}
use rebekah.Dash.Timing.{two_pow, mul_le}
use rebekah.Dash.Step.{
  Round, is_due, exchange, finish, fail_back, report_then, decide_then, accept, Standing, rejected,
  throttling, failing, accepted, standing, on_standing, handle_answer, call_or_wait, step_views,
  step, turn, caught,
}

until_push-second :
    (cfg : Settings) (pushed : Option ℕ) (now until : ℕ)
    → second ≤ until
    → second ≤ until_push cfg pushed now until
until_push-second cfg none now until h = h
until_push-second cfg (some t) now until h = ground arith

wait-second : (cfg : Settings) (now : ℕ) (p : Pusher) → second ≤ wait cfg now p
unfolding wait
wait-second cfg now p =
    let h = until_push-second cfg p.last_push now (until_poll p now) (ground arith) in
    ground (arith, h)

backoff-second : (cfg : Settings) (n : ℕ) → 1 ≤ cfg.dash_poll → second ≤ backoff cfg n
unfolding backoff
backoff-second cfg n h =
    let one : cfg.dash_poll * 1 ≤ cfg.dash_poll * 2 ^ min n 10 =
      mul_le _ _ _ (two_pow (min n 10)) in
    ground arith

-- Whoever waits no time has asked for a push.
abbrev IsUrgent : Result Raised ℕ → Pusher → Type 0
IsUrgent (ok delay) q = delay ≡ 0 → q.refresh ≡ true
IsUrgent (err e) q = Unit

-- A wait that is at least some time.
abbrev Positive : Result Raised ℕ → Type 0
Positive (ok delay) = 1 ≤ delay
Positive (err e) = Unit

Positive-IsUrgent : (r : Result Raised ℕ) (q : Pusher) → Positive r → IsUrgent r q
Positive-IsUrgent (ok delay) q h = λ e. ground arith
Positive-IsUrgent (err e) q h = tt

module _ (of_float : Text → ℕ) (some_time : (t : Text) → 1 ≤ of_float t) (cfg : Settings)
    (polls : 1 ≤ cfg.dash_poll) where
  asked_wait-Positive : (v : Json) → Positive (asked_wait of_float v)
  asked_wait-Positive null = omega arith
  asked_wait-Positive (boolean b) = omega arith
  asked_wait-Positive (int n) = ground arith
  asked_wait-Positive (float t) = some_time t
  asked_wait-Positive (str s) = tt
  asked_wait-Positive (arr vs) = tt
  asked_wait-Positive (obj fs) = tt

  by_answer-Positive : (v : Json) → Positive (by_answer of_float cfg v)
  by_answer-Positive v = elim (Bool-cases (is_truthy v)) [
    | inl e ↦ rw (e) (asked_wait-Positive v)
    | inr e ↦ rw (e) (ground arith)
  ]

  throttled-Positive :
      (retry : Option ℤ) (answered : Option (Dict Json))
      → Positive (throttled of_float cfg retry answered)
  unfolding throttled
  throttled-Positive none answered = by_answer-Positive _
  throttled-Positive (some n) answered = elim (Bool-cases (is_truthy (int n))) [
    | inl e ↦ rw (e) (ground arith)
    | inr e ↦ rw (e) (by_answer-Positive _)
  ]

  module _ (ccfg : Config) (w : World) (wall : Trace → ℕ) (r : Round) where
    pushes_next : (b : Bool) (delay : ℕ) → 1 ≤ delay → (if b then 0 else delay) ≡ 0 → b ≡ true
    pushes_next b delay h e = ground arith

    finish-IsUrgent :
        (d : Text) (due : Bool) (a : Answer) (decided : Bool) (p : Pusher)
        → IsUrgent
            (finish cfg ccfg w wall of_float r d due a decided p).0
            (finish cfg ccfg w wall of_float r d due a decided p).1
    finish-IsUrgent d true a true p = λ e. ground arith
    finish-IsUrgent d true a false p = λ e.
        let h = wait-second cfg r.now (finish cfg ccfg w wall of_float r d true a false p).1 in
        ground (arith, h)
    finish-IsUrgent d false a decided p = λ e.
        let h = wait-second cfg r.now (finish cfg ccfg w wall of_float r d false a decided p).1 in
        pushes_next _ _ (omega (arith, h)) e

    fail_back-IsUrgent :
        (d : Text) (p : Pusher)
        → IsUrgent
            (fail_back cfg ccfg w wall of_float r d p).0
            (fail_back cfg ccfg w wall of_float r d p).1
    unfolding failed
    fail_back-IsUrgent d p =
        λ e. let h = backoff-second cfg (suc p.failures) polls in ground (arith, h)

    sent-IsUrgent :
        (d : Text) (due : Bool) (a : Answer) (decided : Bool) (sent : Result Raised (Unit {0}))
        (p : Pusher)
        → IsUrgent
            (continue sent (λ u. finish cfg ccfg w wall of_float r d due a decided) p).0
            (continue sent (λ u. finish cfg ccfg w wall of_float r d due a decided) p).1
    sent-IsUrgent d due a decided (err e) p = tt
    sent-IsUrgent d due a decided (ok u) p = finish-IsUrgent d due a decided p

    decided-IsUrgent :
        (d : Text) (due : Bool) (a : Answer) (decided : Result Raised Bool) (p : Pusher)
        → IsUrgent
            (continue decided (report_then cfg ccfg w wall of_float r d due a) p).0
            (continue decided (report_then cfg ccfg w wall of_float r d due a) p).1
    decided-IsUrgent d due a (err e) p = tt
    decided-IsUrgent d due a (ok decided) p = sent-IsUrgent d due a decided _ _

    decide_then-IsUrgent :
        (d : Text) (commands due : Bool) (a : Answer) (p : Pusher)
        → IsUrgent
            (decide_then cfg ccfg w wall of_float r d commands due a p).0
            (decide_then cfg ccfg w wall of_float r d commands due a p).1
    decide_then-IsUrgent d false due a p = finish-IsUrgent d due a false p
    decide_then-IsUrgent d true due a p = decided-IsUrgent d due a _ _

    standing-IsUrgent :
        (d : Text) (due : Bool) (a : Answer) (v : Standing) (p : Pusher)
        → IsUrgent
            (on_standing cfg ccfg w wall of_float r d due a v p).0
            (on_standing cfg ccfg w wall of_float r d due a v p).1
    unfolding accept
    standing-IsUrgent d due a rejected p = λ e. ground arith
    standing-IsUrgent d due a throttling p =
        Positive-IsUrgent _ _ (throttled-Positive a.retry a.parsed)
    standing-IsUrgent d due a failing p = fail_back-IsUrgent d p
    standing-IsUrgent d due a accepted p = decide_then-IsUrgent d cfg.commands due a _

    answer-IsUrgent :
        (d : Text) (due : Bool) (o : Option Answer) (p : Pusher)
        → IsUrgent
            (handle_answer cfg ccfg w wall of_float r d due o p).0
            (handle_answer cfg ccfg w wall of_float r d due o p).1
    unfolding handle_answer
    answer-IsUrgent d due none p = fail_back-IsUrgent d p
    answer-IsUrgent d due (some a) p = standing-IsUrgent d due a (standing a.status) p

    call-IsUrgent :
        (views : Dict Json) (d : Text) (due early : Bool) (p : Pusher)
        → IsUrgent
            (call_or_wait cfg ccfg w wall of_float r views d due early p).0
            (call_or_wait cfg ccfg w wall of_float r views d due early p).1
    call-IsUrgent views d due true p = λ e. let h = wait-second cfg r.now p in ground (arith, h)
    call-IsUrgent views d due false p =
        answer-IsUrgent d due (exchange cfg r due views) (record p { last_call = some r.now })

    views-IsUrgent :
        (sha256 : Text → Text) (views : Result Raised (Dict Json)) (p : Pusher)
        → IsUrgent
            (step_views cfg ccfg w wall of_float sha256 r views p).0
            (step_views cfg ccfg w wall of_float sha256 r views p).1
    views-IsUrgent sha256 (err e) p = tt
    views-IsUrgent sha256 (ok views) p = call-IsUrgent views _ _ _ p

    caught-refresh :
        (s : Result Raised ℕ) (q : Pusher)
        → IsUrgent s q
        → (caught cfg ccfg w wall of_float s q).0 ≡ 0
        → (caught cfg ccfg w wall of_float s q).1.refresh ≡ true
    unfolding failed
    caught-refresh (ok delay) q u e = u e
    caught-refresh (err x) q u e =
        let h = backoff-second cfg (suc q.failures) polls in ground (arith, h)

    -- A turn that asks for no wait before the next one makes the next one push, whenever it comes and
    -- whatever the views then are.
    pub turn-is_due :
        (sha256 : Text → Text) (p : Pusher) (now : ℕ) (d : Text)
        → (turn cfg ccfg w wall of_float sha256 r p).0 ≡ 0
        → is_due cfg now d (turn cfg ccfg w wall of_float sha256 r p).1 ≡ true
    unfolding turn step is_due
    turn-is_due sha256 p now d e =
        let h =
          caught-refresh (step_views cfg ccfg w wall of_float sha256 r r.views p).0
            (step_views cfg ccfg w wall of_float sha256 r r.views p).1
            (views-IsUrgent sha256 r.views p) e in
        ground (arith, h)
