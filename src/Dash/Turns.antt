-- ===== src/Dash/Turns.antt =====
-- One turn of nix/gateway.py's `DashPusher.run`: what a mirror leaves alone, the poll interval, and when
-- the next turn pushes.
use rebekah.Prelude.{ℕ, ◌≡◌}
use rebekah.Prelude.Text.{Text}
use rebekah.Prelude.Dict.{Dict}
use rebekah.Json.{Json}
use rebekah.Decisions.Calls.{Trace, World, Config}
use rebekah.Dash.Pusher.{Settings, Pusher}
use rebekah.Dash.Step.{Round}

module _ (cfg : Settings) (ccfg : Config) (w : World) (wall : Trace → ℕ) (of_float : Text → ℕ) where
  module _ (r : Round) where
    -- The three parts of the state that decisions touch.
    record Untouched (p q : Pusher) : Type 0 where
      same_trace : q.trace ≡ p.trace
      same_applied : q.applied ≡ p.applied
      same_unreported : q.unreported ≡ p.unreported
