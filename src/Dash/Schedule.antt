-- ===== src/Dash/Schedule.antt =====
-- When nix/gateway.py's `DashPusher` calls next: `_failed`, `_poll_interval`, `_wait`, and the waits that
-- Dash asks for.
use rebekah.Prelude.{ℕ, suc, ◌-◌, ◌*◌, ◌^◌, min, max, Option, none, some, if◌then◌else◌, ◌==◌}
use rebekah.Prelude.Int.{ℤ, pos_part}
use rebekah.Prelude.Text.{Text, codes}
use rebekah.Prelude.Dict.{Dict}
use rebekah.Prelude.Exec.{Result, ok, err, Raised, type_error}
use rebekah.Json.{Json, null, boolean, int, float, str, arr, obj, is_truthy, as_int}
use rebekah.Dash.Pusher.{Settings, Pusher, second}
use rebekah.Dash.Commands.{answer_field}

abbrev pub max_backoff : ℕ
max_backoff = 900

abbrev pub min_poll : ℕ
min_poll = 5

abbrev pub watch : ℕ
watch = 5

-- `_failed`: the wait, in nanoseconds, after one more failure.
unfoldable pub backoff : Settings → ℕ → ℕ
backoff cfg failures = min (cfg.dash_poll * 2 ^ min failures 10) max_backoff * second

unfoldable pub failed : Settings → Pusher → ℕ × Pusher
failed cfg p = (backoff cfg (suc p.failures), record p { failures = suc p.failures })

-- `_poll_interval`; a bool is no int here.
abbrev asked_poll : Settings → Option ℤ → ℕ
asked_poll cfg none = cfg.dash_poll
asked_poll cfg (some asked) = min (max (pos_part asked) min_poll) cfg.dash_poll

unfoldable pub poll_interval : Settings → Option (Dict Json) → ℕ
poll_interval cfg answered = asked_poll cfg (as_int (answer_field answered (codes "poll_interval")))

-- `self.last_call or now`
abbrev pub or_now : Option ℕ → ℕ → ℕ
or_now none now = now
or_now (some t) now = if t == 0 then now else t

-- `_wait`: the clock never runs back, so that no difference is negative but those that `max` lifts.
abbrev pub until_poll : Pusher → ℕ → ℕ
until_poll p now = max (p.poll_every * second - (now - or_now p.last_call now)) second

abbrev pub until_push : Settings → Option ℕ → ℕ → ℕ → ℕ
until_push cfg none now until = until
until_push cfg (some pushed) now until =
    min until (max (cfg.dash_heartbeat * second - (now - pushed)) second)

unfoldable pub wait : Settings → ℕ → Pusher → ℕ
wait cfg now p =
    let until = until_push cfg p.last_push now (until_poll p now) in
    if cfg.ephor_enabled then min (watch * second) until else until

-- `max(v, 1)` of the value that Dash gave, in nanoseconds; a text, a list or a dict raises. What a float
-- comes to is `of_float`.
abbrev pub asked_wait : (Text → ℕ) → Json → Result Raised ℕ
asked_wait of_float null = ok second
asked_wait of_float (boolean b) = ok second
asked_wait of_float (int n) = ok (max (pos_part n) 1 * second)
asked_wait of_float (float t) = ok (of_float t)
asked_wait of_float (str s) = err type_error
asked_wait of_float (arr vs) = err type_error
asked_wait of_float (obj fs) = err type_error

abbrev pub by_answer : (Text → ℕ) → Settings → Json → Result Raised ℕ
by_answer of_float cfg v =
    if is_truthy v then asked_wait of_float v else ok (max cfg.dash_poll 1 * second)

-- `max(retry or data.get("retry_after") or self.cfg.dash_poll, 1)`
unfoldable pub throttled : (Text → ℕ) → Settings → Option ℤ → Option (Dict Json) → Result Raised ℕ
throttled of_float cfg none answered =
    by_answer of_float cfg (answer_field answered (codes "retry_after"))
throttled of_float cfg (some retry) answered =
    if is_truthy (int retry)
    then ok (max (pos_part retry) 1 * second)
    else by_answer of_float cfg (answer_field answered (codes "retry_after"))
