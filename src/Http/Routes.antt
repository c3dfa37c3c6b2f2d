-- ===== src/Http/Routes.antt =====
-- The routes of `_handle` in nix/gateway.py, in the order in which it tries them.
use rebekah.Prelude.{
  ℕ, Bool, ◌&&◌, ◌||◌, Option, none, some, List, [], ◌∷◌, ◌++◌, if◌then◌else◌, String, length, drop,
}
use rebekah.Prelude.Text.{
  Text, codes, text_eq, is_empty, is_member, starts_with, partition, lstrip_char, rstrip_char,
  has_char,
}

pub data Route : Type 0 where
  healthz : Route
  -- The console's index, and a file of the console.
  index : Route
  ui : Text → Route
  auth login logout : Route
  session system oversight daily_agenda frog_kanban attention change_sets change_requests info :
      Route
  change_set : Text → Route
  unknown : Route
  -- The first segment of the path.
  backend : Text → Route

-- `text.split(c, 1)[0]`
abbrev pub before : ℕ → Text → Text
before c s = let (first, found, rest) = partition c s in first

-- `path in (p, p + "/")`
abbrev pub is_at : Text → String → Bool
is_at path p = is_member path (codes p ∷ (codes p ++ codes "/") ∷ [])

abbrev pub raw_path : Text → Text
raw_path path = before 63 path

-- `self.path.lstrip("/").split("/", 1)[0].split("?", 1)[0]`
unfoldable pub first_segment : Text → Text
first_segment path = before 63 (before 47 (lstrip_char 47 path))

abbrev fixed : List (String × Route) → Text → Option Route
fixed [] path = none
fixed ((p, route) ∷ routes) path =
    let rest = fixed routes path in if is_at path p then some route else rest

abbrev before_change_set : List (String × Route)
before_change_set =
    ("/api/auth", Route.auth)
    ∷ ("/api/login", Route.login)
    ∷ ("/api/logout", Route.logout)
    ∷ ("/api/v1/session", Route.session)
    ∷ ("/api/v1/system", Route.system)
    ∷ ("/api/v1/oversight", Route.oversight)
    ∷ ("/api/v1/daily-agenda", Route.daily_agenda)
    ∷ ("/api/v1/frog-kanban", Route.frog_kanban)
    ∷ ("/api/v1/attention", Route.attention)
    ∷ ("/api/v1/change-sets", Route.change_sets)
    ∷ ("/api/v1/change-requests", Route.change_requests)
    ∷ []

-- `/api/v1/change-sets/{id}`, where `unquote` is `urllib.parse.unquote`.
abbrev pub change_set_id : (Text → Text) → Text → Text
change_set_id unquote path =
    rstrip_char 47 (lstrip_char 47 (unquote (drop (length (codes "/api/v1/change-sets/")) path)))

abbrev change_set_route : Text → Route
change_set_route id = if is_empty id || has_char 47 id then Route.unknown else Route.change_set id

abbrev after_fixed : (Text → Text) → Text → Option Route → Route
after_fixed unquote path (some route) = route
after_fixed unquote path none =
    if starts_with (raw_path path) (codes "/api/v1/change-sets/")
    then change_set_route (change_set_id unquote (raw_path path))
    else if is_at (raw_path path) "/api/info"
    then Route.info
    else Route.backend (first_segment path)

abbrev api_route : (Text → Text) → Text → Route
api_route unquote path = after_fixed unquote path (fixed before_change_set (raw_path path))

unfoldable pub route : Bool → (Text → Text) → Text → Route
unfolding partition text_eq starts_with first_segment
route ui_enabled unquote path =
    if is_at path "/healthz"
    then Route.healthz
    else if ui_enabled && is_member (raw_path path) (codes "/" ∷ codes "/ui" ∷ codes "/ui/" ∷ [])
    then Route.index
    else if ui_enabled && starts_with (raw_path path) (codes "/ui/")
    then Route.ui (drop (length (codes "/ui/")) (raw_path path))
    else api_route unquote path
