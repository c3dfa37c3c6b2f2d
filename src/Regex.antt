-- ===== src/Regex.antt =====
-- The regular expressions by which nix/gateway.py admits identifiers. `pattern.match(s)` with a `$`
-- at the end of the pattern also admits one newline after the match; `re.fullmatch` does not.
use rebekah.Prelude.{
  ℕ, suc, ◌≤◌, ◌≡◌, Bool, true, false, not, ◌&&◌, ◌||◌, [], ◌∷◌, leb, ◌==◌, if◌then◌else◌, length,
  all, arith, take, drop,
}
use rebekah.Prelude.Text.{Text, codes, starts_with, is_space, is_empty, partition}

-- `s` without one newline at its end.
unfoldable pub chop_newline : Text → Text
chop_newline [] = []
chop_newline (c ∷ s) = let rest = chop_newline s in if c == 10 && is_empty s then [] else c ∷ rest

-- A class, at least `lo` and at most `hi` times, to the end: `[class]{lo,hi}` by `fullmatch`.
unfoldable pub run_of : (ℕ → Bool) → ℕ → ℕ → Text → Bool
run_of class lo hi s = all class s && leb lo (length s) && leb (length s) hi

-- One of a class, then at most `hi` of another.
unfoldable pub headed_run : (ℕ → Bool) → (ℕ → Bool) → ℕ → Text → Bool
unfolding run_of
headed_run first class hi [] = false
headed_run first class hi (c ∷ s) = first c && run_of class 0 hi s

abbrev is_upper : ℕ → Bool
is_upper c = leb b'A' c && leb c b'Z'

abbrev is_lower : ℕ → Bool
is_lower c = leb b'a' c && leb c b'z'

abbrev pub is_digit : ℕ → Bool
is_digit c = leb b'0' c && leb c b'9'

abbrev pub is_alnum : ℕ → Bool
is_alnum c = is_upper c || is_lower c || is_digit c

abbrev pub is_hex : ℕ → Bool
is_hex c = is_digit c || (leb b'a' c && leb c b'f')

-- `[A-Za-z0-9_-]`
abbrev pub is_token_char : ℕ → Bool
is_token_char c = is_alnum c || c == b'_' || c == b'-'

-- `[A-Za-z0-9._:-]`
abbrev pub is_name_char : ℕ → Bool
is_name_char c = is_token_char c || c == b'.' || c == b':'

-- `[A-Za-z0-9._-]`
abbrev pub is_queue_char : ℕ → Bool
is_queue_char c = is_token_char c || c == b'.'

-- `[a-z0-9-]`
abbrev is_gate_char : ℕ → Bool
is_gate_char c = is_lower c || is_digit c || c == b'-'

-- `[^\s@]`
unfoldable pub is_actor_char : ℕ → Bool
unfolding is_space
is_actor_char c = not (is_space c) && not (c == b'@')

-- `COMMAND_ID_RE.match(s)`
unfoldable pub is_command_id : Text → Bool
unfolding run_of chop_newline
is_command_id s = run_of is_token_char 8 64 (chop_newline s)

-- `REQUEST_ID_RE.match(s)`, and `CHAIN_ENTRY_RE.match(s)`
unfoldable pub is_request_id : Text → Bool
unfolding run_of chop_newline
is_request_id s = run_of is_name_char 1 80 (chop_newline s)

-- `CHAIN_HASH_RE.match(s)`
unfoldable pub is_chain_hash : Text → Bool
unfolding run_of chop_newline
is_chain_hash s = run_of is_hex 64 64 (chop_newline s)

-- `CHANGE_SET_RE.match(s)`
unfoldable pub is_change_set : Text → Bool
unfolding headed_run chop_newline
is_change_set s = headed_run is_alnum is_name_char 199 (chop_newline s)

-- `QUEUE_RE.match(s)`
unfoldable pub is_queue : Text → Bool
unfolding run_of chop_newline
is_queue s = run_of is_queue_char 1 80 (chop_newline s)

-- `ACTOR_RE.match(s)`
unfoldable pub is_actor : Text → Bool
unfolding run_of chop_newline is_actor_char partition
is_actor s =
    let (user, found, host) = partition b'@' s in
    run_of is_actor_char 1 64 user && found && run_of is_actor_char 1 190 (chop_newline host)

-- `GATE_NAME_RE.match(s)`
unfoldable pub is_gate_name : Text → Bool
unfolding headed_run chop_newline
is_gate_name s = headed_run is_lower is_gate_char 31 (chop_newline s)

-- `".." in s`
unfoldable pub has_dots : Text → Bool
has_dots [] = false
has_dots (c ∷ []) = false
has_dots (c ∷ d ∷ s) = (c == 46 && d == 46) || has_dots (d ∷ s)

length-chop_newline : (s : Text) → length s ≤ suc (length (chop_newline s))
unfolding chop_newline
length-chop_newline [] = omega arith
length-chop_newline (c ∷ []) = ground arith
length-chop_newline (c ∷ d ∷ s) = ground (arith, length-chop_newline (d ∷ s))

-- An admitted command id is at most 65 characters long, its newline included.
pub is_command_id-length : (s : Text) → is_command_id s ≡ true → length s ≤ 65
unfolding is_command_id
is_command_id-length s h = ground (arith, length-chop_newline s)

-- `DASH_PUSH_KEY_RE.match(s)`: `rbkp_`, 12 hexadecimal digits, `_` and 43 characters.
unfoldable pub is_push_key : Text → Bool
unfolding run_of chop_newline starts_with
is_push_key s =
    let key = chop_newline s in
    starts_with key (codes "rbkp_")
    && run_of is_hex 12 12 (take 12 (drop 5 key))
    && starts_with (drop 17 key) (codes "_")
    && run_of is_token_char 43 43 (drop 18 key)
