-- ===== src/Dash/Admission.antt =====
-- Which Dash targets nix/gateway.py starts a pusher for, and which of these take commands.
use rebekah.Prelude.{ℕ, suc, ◌≡◌, refl, true, false, List, [], ◌∷◌, ◌++◌, map, All, arith, ap, ◌∙◌}
use rebekah.Prelude.Int.{pos, ◌≤ℤ◌}
use rebekah.Prelude.Text.{Text, is_empty}
use rebekah.Dash.Targets.{
  Target, Url, DashConfig, targets_by, IsSafe, dash_targets, pushers_from, start_dash_pushers,
}

pub append_nil : {A : Type 0} (xs ys : List A) → xs ++ ys ≡ [] → (xs ≡ []) × (ys ≡ [])
append_nil [] ys e = (refl, e)
append_nil (x ∷ xs) ys e = cc

module _ (urlsplit : Text → Url) where
  -- A configuration that can be started: its targets, and its intervals.
  pub record IsAdmitted (cfg : DashConfig) : Type 0 where
    pub safe : All (IsSafe urlsplit) (dash_targets cfg)
    pub polls : pos 10 ≤ℤ cfg.dash_poll
    pub beats : cfg.dash_poll ≤ℤ cfg.dash_heartbeat

later_mirrors : (n : ℕ) (ms : List Target) → pushers_from (suc n) ms ≡ map (λ m. (m, false)) ms
later_mirrors n [] = refl
later_mirrors n (m ∷ ms) = ground (arith, later_mirrors (suc n) ms)

-- With a primary target, it alone takes commands, and no mirror does.
pub start_dash_pushers_primary :
    (cfg : DashConfig)
    → is_empty cfg.dash_url ≡ false
    → is_empty cfg.dash_push_key ≡ false
    → start_dash_pushers cfg
      ≡ ((cfg.dash_url, cfg.dash_push_key), true) ∷ map (λ m. (m, false)) cfg.dash_mirrors
unfolding start_dash_pushers dash_targets
start_dash_pushers_primary cfg u k =
    ap (λ x. pushers_from 0 (targets_by cfg x (is_empty cfg.dash_push_key))) u
    ∙ ap (λ x. pushers_from 0 (targets_by cfg false x)) k
    ∙ ap (λ rest. ((cfg.dash_url, cfg.dash_push_key), true) ∷ rest)
        (later_mirrors 0 cfg.dash_mirrors)

-- Without a primary target the first mirror takes commands, though mirrors are meant never to, and
-- the others do not.
pub start_dash_pushers_mirror :
    (cfg : DashConfig) (m : Target) (ms : List Target)
    → is_empty cfg.dash_url ≡ true
    → cfg.dash_mirrors ≡ m ∷ ms
    → start_dash_pushers cfg ≡ (m, true) ∷ map (λ n. (n, false)) ms
unfolding start_dash_pushers dash_targets
start_dash_pushers_mirror cfg m ms u e =
    ap (λ x. pushers_from 0 (targets_by cfg x (is_empty cfg.dash_push_key))) u
    ∙ ap (pushers_from 0) e
    ∙ ap (λ rest. (m, true) ∷ rest) (later_mirrors 0 ms)
