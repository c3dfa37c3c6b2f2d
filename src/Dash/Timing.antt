-- ===== src/Dash/Timing.antt =====
-- The waits of nix/gateway.py's `DashPusher`, and what a mirror leaves alone.
use rebekah.Prelude.{
  ℕ, zero, suc, ◌+◌, ◌*◌, ◌^◌, ◌≤◌, ◌<◌, min, max, ◌≡◌, true, Option, some, arith, inl, inr,
  Bool-cases, ltb,
}
use rebekah.Prelude.Dict.{Dict}
use rebekah.Json.{Json}
use rebekah.Dash.Pusher.{Settings, Pusher, second}
use rebekah.Dash.Schedule.{min_poll, watch, max_backoff, backoff, poll_interval, wait}

-- Dash can ask for polls no faster than every 5 seconds, and no slower than the settings say, which ask
-- for at least 5 seconds.
pub poll_interval-bounds :
    (cfg : Settings) (answered : Option (Dict Json))
    → min_poll ≤ cfg.dash_poll
    → (min_poll ≤ poll_interval cfg answered) × (poll_interval cfg answered ≤ cfg.dash_poll)
unfolding poll_interval
poll_interval-bounds cfg answered h = ground arith

-- `_wait` asks for at least one second, and for no more than until the next poll or the next
-- heartbeat is due, where these are more than a second away, and within 5 seconds where Ephor is
-- enabled; the clock has not run back since the last call and the last push.
pub wait-bounds :
    (cfg : Settings) (now called pushed : ℕ) (p : Pusher)
    → p.last_call ≡ some called
    → p.last_push ≡ some pushed
    → 0 < called
    → called ≤ now
    → pushed ≤ now
    → (second ≤ wait cfg now p)
      × (now + wait cfg now p ≤ max (called + p.poll_every * second) (now + second))
      × (now + wait cfg now p ≤ max (pushed + cfg.dash_heartbeat * second) (now + second))
      × (cfg.ephor_enabled ≡ true → wait cfg now p ≤ watch * second)
unfolding wait
wait-bounds cfg now called pushed p ec ep c0 cn pn = ground arith

pub mul_le : (k a b : ℕ) → a ≤ b → k * a ≤ k * b
mul_le zero a b h = omega arith
mul_le (suc k) a b h = omega (arith, mul_le k a b h)

pub two_pow : (n : ℕ) → 1 ≤ 2 ^ n
two_pow zero = omega arith
two_pow (suc n) = omega (arith, two_pow n)

two_pow_step : (n : ℕ) → 2 ^ min n 10 ≤ 2 ^ min (suc n) 10
two_pow_step n = elim (Bool-cases (ltb n 10)) [
  | inl e ↦
      let q : min n 10 ≡ n = ground arith in
      let q' : min (suc n) 10 ≡ suc n = ground arith in rw (q, q') (omega (arith, two_pow n))
  | inr e ↦
      let q : min n 10 ≡ 10 = ground arith in
      let q' : min (suc n) 10 ≡ 10 = ground arith in rw (q, q') (omega arith)
]

-- The wait after a failure grows with the failures in a row, from the poll interval up to 15 minutes.
pub backoff-bounds :
    (cfg : Settings) (failures : ℕ)
    → cfg.dash_poll ≤ max_backoff
    → (cfg.dash_poll * second ≤ backoff cfg failures)
      × (backoff cfg failures ≤ backoff cfg (suc failures))
      × (backoff cfg failures ≤ max_backoff * second)
unfolding backoff
backoff-bounds cfg failures h =
    let one : cfg.dash_poll * 1 ≤ cfg.dash_poll * 2 ^ min failures 10 =
      mul_le _ _ _ (two_pow (min failures 10)) in
    let step : cfg.dash_poll * 2 ^ min failures 10 ≤ cfg.dash_poll * 2 ^ min (suc failures) 10 =
      mul_le _ _ _ (two_pow_step failures) in
    (ground arith, ground arith, ground arith)
