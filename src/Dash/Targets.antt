-- ===== src/Dash/Targets.antt =====
-- The Dash targets of nix/gateway.py: how `Config` reads the mirrors, `dash_problems`, and which pushers
-- `start_dash_pushers` starts.
use rebekah.Prelude.{
  ℕ, suc, ◌≡◌, Bool, true, false, not, ◌&&◌, ◌||◌, Option, none, some, List, [], ◌∷◌, ◌++◌, map,
  if◌then◌else◌, ◌==◌, arith,
}
use rebekah.Prelude.Int.{ℤ, pos, int_ltb, int_max}
use rebekah.Prelude.Text.{
  Text, codes, text_eq, is_empty, is_member, lower, strip, partition, rstrip_char, decimal,
}
use rebekah.Regex.{is_push_key}

abbrev pub Target : Type 0
Target = Text × Text

-- `urllib.parse.urlsplit`, as far as it is read here.
pub record Url : Type 0 where
  pub scheme : Text
  pub hostname : Option Text
  pub username : Option Text
  pub password : Option Text
  pub query : Text
  pub fragment : Text

pub record DashConfig : Type 0 where
  pub dash_url : Text
  pub dash_push_key : Text
  pub dash_mirrors : List Target
  pub dash_poll : ℤ
  pub dash_heartbeat : ℤ

-- `text.split(",")`
abbrev split_comma : Text → Text × List Text
split_comma [] = ([], [])
split_comma (c ∷ s) =
    let (part, parts) = split_comma s in if c == 44 then ([], part ∷ parts) else (c ∷ part, parts)

abbrev mirror_of : Text → Target
mirror_of entry =
    let (url, found, key) = partition 124 entry in
    if found then (rstrip_char 47 (strip url), strip key) else (entry, [])

abbrev mirrors_of : List Text → List Target
mirrors_of [] = []
mirrors_of (e ∷ es) =
    let rest = mirrors_of es in if is_empty (strip e) then rest else mirror_of (strip e) ∷ rest

-- `REBEKAH_DASH_MIRRORS`
unfoldable pub read_mirrors : Text → List Target
unfolding strip partition
read_mirrors s = let (part, parts) = split_comma s in mirrors_of (part ∷ parts)

abbrev pub loopback : List Text
loopback = codes "127.0.0.1" ∷ codes "::1" ∷ codes "localhost" ∷ []

abbrev or_nil : Option Text → Text
or_nil none = []
or_nil (some s) = s

abbrev pub when : Bool → Text → List Text
when true problem = problem ∷ []
when false problem = []

abbrev pub host_of : Url → Text
host_of u = lower (or_nil u.hostname)

-- The scheme is neither https nor http to the machine itself.
unfoldable pub is_insecure : Url → Bool
unfolding lower text_eq
is_insecure u =
    not (text_eq u.scheme (codes "http") && is_member (host_of u) loopback)
    && not (text_eq u.scheme (codes "https"))

-- A user, a password, a query or a fragment, or no host. A path is not looked at.
unfoldable pub is_decorated : Url → Bool
unfolding lower
is_decorated u =
    is_empty (host_of u)
    || not (is_empty (or_nil u.username))
    || not (is_empty (or_nil u.password))
    || not (is_empty u.query)
    || not (is_empty u.fragment)

module _ (urlsplit : Text → Url) where
  -- `_dash_endpoint_problems`
  unfoldable pub endpoint_problems : Target → List Text
  endpoint_problems (url, key) =
      if is_empty url || is_empty key
      then codes "need both a URL and a push key (url|key)" ∷ []
      else when (is_insecure (urlsplit url))
          (codes "URL must be https:// (plain http only to loopback)")
        ++ (when (is_decorated (urlsplit url))
              (codes "URL must be a plain origin, e.g. https://dash.ragbaz.cc")
            ++ when (not (is_push_key key)) (codes "push key is not a Dash push key (rbkp_...)"))

  abbrev pub origin_problems : Text → Text → List Text
  origin_problems url key =
      when (is_insecure (urlsplit url))
        (codes "REBEKAH_DASH_URL must be https:// (plain http only to loopback)")
      ++ (when (is_decorated (urlsplit url))
            (codes "REBEKAH_DASH_URL must be a plain origin, e.g. https://dash.ragbaz.cc")
          ++ when (not (is_push_key key))
              (codes "REBEKAH_DASH_PUSH_KEY is not a Dash push key (rbkp_...)"))

  -- `enumerate(cfg.dash_mirrors, 1)`
  unfoldable pub mirror_problems : ℕ → List Target → List Text
  mirror_problems i [] = []
  mirror_problems i (m ∷ ms) =
      map (λ p. codes "mirror " ++ (decimal i ++ (codes ": " ++ p))) (endpoint_problems m)
      ++ mirror_problems (suc i) ms

  unfoldable pub interval_problems : DashConfig → List Text
  interval_problems cfg =
      when (int_ltb cfg.dash_poll (pos 10))
        (codes "REBEKAH_DASH_POLL_INTERVAL must be an integer >= 10 (seconds)")
      ++ when (int_ltb cfg.dash_heartbeat (int_max cfg.dash_poll (pos 10)))
          (codes "REBEKAH_DASH_PUSH_INTERVAL must be an integer >= the poll interval")

  -- By whether the primary target's URL and key are empty; half a target ends the list.
  abbrev pub problems_by : DashConfig → Bool → Bool → List Text
  problems_by cfg true true = mirror_problems 1 cfg.dash_mirrors ++ interval_problems cfg
  problems_by cfg false false =
      origin_problems cfg.dash_url cfg.dash_push_key
      ++ (mirror_problems 1 cfg.dash_mirrors ++ interval_problems cfg)
  problems_by cfg _ _ = codes "set both REBEKAH_DASH_URL and REBEKAH_DASH_PUSH_KEY, or neither" ∷ []

  -- `dash_problems`
  unfoldable pub dash_problems : DashConfig → List Text
  dash_problems cfg = problems_by cfg (is_empty cfg.dash_url) (is_empty cfg.dash_push_key)

  -- What a target that can be pushed to is: complete, over TLS or to the machine itself, a plain
  -- origin, with a push key.
  pub record IsSafe (target : Target) : Type 0 where
    pub url_given : is_empty target.0 ≡ false
    pub key_given : is_empty target.1 ≡ false
    pub secure : is_insecure (urlsplit target.0) ≡ false
    pub plain : is_decorated (urlsplit target.0) ≡ false
    pub keyed : is_push_key target.1 ≡ true

  pub endpoint_problems-IsSafe : (target : Target) → endpoint_problems target ≡ [] → IsSafe target
  unfolding endpoint_problems
  endpoint_problems-IsSafe (url, key) e = record {
    url_given = ground arith;
    key_given = ground arith;
    secure = ground arith;
    plain = ground arith;
    keyed = ground arith;
  }

-- `dash_targets`: the primary target first, where it has both parts.
abbrev pub targets_by : DashConfig → Bool → Bool → List Target
targets_by cfg false false = (cfg.dash_url, cfg.dash_push_key) ∷ cfg.dash_mirrors
targets_by cfg _ _ = cfg.dash_mirrors

unfoldable pub dash_targets : DashConfig → List Target
dash_targets cfg = targets_by cfg (is_empty cfg.dash_url) (is_empty cfg.dash_push_key)

-- `start_dash_pushers`: the targets with whether the pusher takes commands, `i == 0`.
abbrev pub pushers_from : ℕ → List Target → List (Target × Bool)
pushers_from i [] = []
pushers_from i (t ∷ ts) = (t, i == 0) ∷ pushers_from (suc i) ts

unfoldable pub start_dash_pushers : DashConfig → List (Target × Bool)
start_dash_pushers cfg = pushers_from 0 (dash_targets cfg)
