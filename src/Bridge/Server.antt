-- ===== src/Bridge/Server.antt =====
-- `serve` and `session` of nix/mcp-bridge.py: a loop that accepts connections, and a thread for
-- each that it admits, which starts the child, waits for its end and gives its slot back.
use rebekah.Prelude.{
  ℕ, zero, suc, ◌+◌, true, false, Bool, Option, none, some, List, [], ◌∷◌, ◌++◌, if◌then◌else◌, ltb,
}
use rebekah.Prelude.Int.{ℤ, int_eq}

-- `MAX_SESSIONS`
abbrev pub max_sessions : ℕ
max_sessions = 8

-- A session thread: its connection, the uid at the other end, and whether the child runs.
pub record Session : Type 0 where
  pub conn : ℕ
  pub peer : ℤ
  pub joined : Bool

-- What the bridge does that others see; connections are numbered as they are accepted. `over_releases` is the ValueError of a BoundedSemaphore
-- that is given back more slots than it had.
pub data Action : Type 0 where
  refuses_uid : ℤ → Action
  refuses_full : Action
  spawns : ℤ → Action
  cannot_start : Action
  kills : Action
  closes : ℕ → Action
  over_releases : Action

pub record Server : Type 0 where
  pub allow_uid : ℤ
  pub slots : ℕ
  pub accepted : ℕ
  pub sessions : List Session
  pub actions : List Action

-- What happens to it: a connection, with the uid of the peer or a failure to ask for it; `Popen` in
-- a session thread; and the end of what the child writes, with whether the child outlives it by
-- five seconds.
pub data Event : Type 0 where
  connection : Option ℤ → Event
  popen : ℕ → Bool → Event
  child_ends : ℕ → Bool → Event

unfoldable pub did : List Action → Server → Server
did more s = record s { actions = s.actions ++ more }

-- `slots.acquire(blocking=False)`, and the session or the refusal.
unfoldable pub acquire : ℤ → ℕ → ℕ → Server → Server
unfolding did
acquire uid conn zero s = did (refuses_full ∷ closes conn ∷ []) s
acquire uid conn (suc n) s = record s {
  slots = n;
  sessions = record { conn = conn; peer = uid; joined = false } ∷ s.sessions;
}

unfoldable pub admit : Option ℤ → ℕ → Server → Server
unfolding did acquire
admit none conn s = did (closes conn ∷ []) s
admit (some uid) conn s =
    if int_eq uid s.allow_uid
    then acquire uid conn s.slots s
    else did (refuses_uid uid ∷ closes conn ∷ []) s

-- `slots.release()`
unfoldable pub release : Server → Server
unfolding did
release s =
    if ltb s.slots max_sessions
    then record s { slots = s.slots + 1 }
    else did (over_releases ∷ []) s

abbrev pub get_elem? : List Session → ℕ → Option Session
get_elem? [] i = none
get_elem? (x ∷ xs) zero = some x
get_elem? (x ∷ xs) (suc i) = get_elem? xs i

abbrev pub remove_at : ℕ → List Session → List Session
remove_at i [] = []
remove_at zero (x ∷ xs) = xs
remove_at (suc i) (x ∷ xs) = x ∷ remove_at i xs

abbrev pub join_at : ℕ → List Session → List Session
join_at i [] = []
join_at zero (x ∷ xs) = record x { joined = true } ∷ xs
join_at (suc i) (x ∷ xs) = x ∷ join_at i xs

-- `conn.close()`, `slots.release()` and the end of the thread.
unfoldable pub close_session : ℕ → ℕ → Server → Server
unfolding did release
close_session i conn s =
    release (did (closes conn ∷ []) (record s { sessions = remove_at i s.sessions }))

-- A thread calls `Popen` once, and waits for the child only where that has started it.
unfoldable pub start_child : ℕ → Bool → Option Session → Server → Server
unfolding did close_session
start_child i starts none s = s
start_child i starts (some x) s =
    if x.joined
    then s
    else if starts
    then did (spawns x.peer ∷ []) (record s { sessions = join_at i s.sessions })
    else close_session i x.conn (did (cannot_start ∷ []) s)

unfoldable pub end_child : ℕ → Bool → Option Session → Server → Server
unfolding did close_session
end_child i lingers none s = s
end_child i lingers (some x) s =
    if x.joined then close_session i x.conn (if lingers then did (kills ∷ []) s else s) else s

unfoldable pub step : Event → Server → Server
unfolding admit start_child end_child
step (connection peer) s = admit peer s.accepted (record s { accepted = suc s.accepted })
step (popen i starts) s = start_child i starts (get_elem? s.sessions i) s
step (child_ends i lingers) s = end_child i lingers (get_elem? s.sessions i) s

unfoldable pub run : List Event → Server → Server
unfolding step
run [] s = s
run (e ∷ es) s = run es (step e s)

-- `serve` before its first connection.
unfoldable pub listening : ℤ → Server
listening uid = record {
  allow_uid = uid;
  slots = max_sessions;
  accepted = 0;
  sessions = [];
  actions = [];
}
