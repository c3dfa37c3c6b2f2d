-- ===== src/Dash/Remembering.antt =====
-- One command in `take_commands` of nix/gateway.py, and what the pusher remembers of it.
use rebekah.Prelude.{
  ℕ, suc, ◌≤◌, ◌≡◌, refl, Bool, true, Option, none, some, [], ◌∷◌, arith, length, inl, inr, ◌⊎◌,
}
use rebekah.Prelude.Text.{Text, text_eq_refl}
use rebekah.Prelude.Dict.{Dict, lookup, insert, has_key, lookup-insert, length-insert}
use rebekah.Prelude.Exec.{Result, ok, err, Raised}
use rebekah.Json.{Json, str, null, boolean, int, float, arr, obj}
use rebekah.Decisions.Calls.{Trace, World, Config}
use rebekah.Decisions.Check.{command_id, text_where}
use rebekah.Decisions.Reports.{Report}
use rebekah.Decisions.Apply.{apply_command, reported}
use rebekah.Dash.Pusher.{Pusher}
use rebekah.Dash.Commands.{
  max_remembered, id_of, key_of, evict, keep_result, apply_new, repeat_or_apply, remembered,
  take_keyed,
}

-- A dict that is not too long is kept; one that is loses its oldest entries.
pub evict-short : {V : Type 0} (d : Dict V) → length d ≤ max_remembered → evict d ≡ d
unfolding evict
evict-short [] h = refl
evict-short (e ∷ d) h = ground arith

pub length-evict : {V : Type 0} (d : Dict V) → length (evict d) ≤ max_remembered
unfolding evict
length-evict [] = omega arith
length-evict (e ∷ d) = ground (arith, length-evict d)

module _ (ccfg : Config) (w : World) (wall : Trace → ℕ) where
  -- A command that is remembered, or that has no usable id.
  abbrev pub IsKnown : Option Text → Json → Pusher → Type 0
  IsKnown none command p = command_id command ≡ none
  IsKnown (some cid) command p = (has_key cid p.applied ≡ true) ⊎ (command_id command ≡ none)

  -- The new state has the old one's decisions and no more than one more.
  pub record Grows (p q : Pusher) : Type 0 where
    pub kept : (cid : Text) → has_key cid p.applied ≡ true → has_key cid q.applied ≡ true
    pub more : length q.applied ≤ suc (length p.applied)

  has_key-insert :
      (cid k : Text) (report : Report) (d : Dict Report)
      → has_key k d ≡ true
      → has_key k (insert cid report d) ≡ true
  has_key-insert cid k report d h = ground (arith, lookup-insert cid k report d)

  keep_result-Grows :
      (cid : Option Text) (r : Result Raised (Option Report)) (p : Pusher)
      → Grows p (keep_result ccfg w wall cid r p).1
  keep_result-Grows cid (err e) p = record { kept = λ k h. h; more = omega arith }
  keep_result-Grows none (ok o) p = record { kept = λ k h. h; more = omega arith }
  keep_result-Grows (some cid) (ok none) p = record { kept = λ k h. h; more = omega arith }
  keep_result-Grows (some cid) (ok (some report)) p = record {
    kept = λ k h. has_key-insert cid k report p.applied h;
    more = length-insert cid report p.applied;
  }

  apply_new-Grows :
      (cid : Option Text) (command : Json) (p : Pusher)
      → Grows p (apply_new ccfg w wall cid command p).1
  unfolding apply_new
  apply_new-Grows cid command p =
      let (result, t) = apply_command ccfg w command (wall p.trace) p.trace in
      let g = keep_result-Grows cid result (record p { trace = t }) in
      record { kept = g.kept; more = g.more }

  repeat_or_apply-Grows :
      (cid : Option Text) (command : Json) (o : Option Report) (p : Pusher)
      → Grows p (repeat_or_apply ccfg w wall cid command o p).1
  repeat_or_apply-Grows (some cid) command (some report) p = record {
    kept = λ k h. h;
    more = omega arith;
  }
  repeat_or_apply-Grows none command (some report) p = record {
    kept = λ k h. h;
    more = omega arith;
  }
  repeat_or_apply-Grows (some cid) command none p = apply_new-Grows (some cid) command p
  repeat_or_apply-Grows none command none p = apply_new-Grows none command p

  pub take_keyed-Grows :
      (k : Result Raised (Option Text)) (command : Json) (p : Pusher)
      → Grows p (take_keyed ccfg w wall k command p).1
  take_keyed-Grows (err e) command p = record { kept = λ k h. h; more = omega arith }
  take_keyed-Grows (ok cid) command p =
      repeat_or_apply-Grows cid command (remembered ccfg w wall cid p) p

  -- A command with no usable id does nothing.
  pub apply_unusable :
      (command : Json) (now : ℕ) (t : Trace)
      → command_id command ≡ none
      → apply_command ccfg w command now t ≡ (ok none, t)
  unfolding apply_command
  apply_unusable command now t e = rw (e) refl

  reported_usable :
      (cid : Option Text) (command : Dict Json) (now : ℕ) (t : Trace)
      → (reported ccfg w cid command now t).0 ≡ ok none
      → cid ≡ none
  reported_usable none command now t e = refl
  reported_usable (some cid) command now t e = ground arith

  apply_usable :
      (command : Json) (now : ℕ) (t : Trace)
      → (apply_command ccfg w command now t).0 ≡ ok none
      → command_id command ≡ none
  unfolding apply_command
  apply_usable command now t e = reported_usable _ _ now t e

  -- A value that is no text is no usable id.
  keyless : (v : Json) (test : Text → Bool) → key_of v ≡ ok none → text_where test v ≡ none
  keyless null test e = refl
  keyless (boolean b) test e = refl
  keyless (int n) test e = refl
  keyless (float t) test e = refl
  keyless (str s) test e = cc
  keyless (arr vs) test e = cc
  keyless (obj fs) test e = cc

  keyless_command : (command : Json) → key_of (id_of command) ≡ ok none → command_id command ≡ none
  unfolding command_id
  keyless_command null e = refl
  keyless_command (boolean b) e = refl
  keyless_command (int n) e = refl
  keyless_command (float t) e = refl
  keyless_command (str s) e = refl
  keyless_command (arr vs) e = refl
  keyless_command (obj fs) e = keyless _ _ e

  -- What was just taken is known.
  keep_result-IsKnown :
      (cid : Text) (command : Json) (r : Result Raised (Option Report)) (p : Pusher) (b : Bool)
      → (r ≡ ok none → command_id command ≡ none)
      → (keep_result ccfg w wall (some cid) r p).0 ≡ ok b
      → IsKnown (some cid) command (keep_result ccfg w wall (some cid) r p).1
  keep_result-IsKnown cid command (err e) p b none_of h = cc
  keep_result-IsKnown cid command (ok none) p b none_of h = inr (none_of refl)
  keep_result-IsKnown cid command (ok (some report)) p b none_of h =
      inl (ground (arith, lookup-insert cid cid report p.applied, text_eq_refl cid))

  repeat_or_apply-IsKnown :
      (cid : Text) (command : Json) (o : Option Report) (p : Pusher) (b : Bool)
      → lookup cid p.applied ≡ o
      → (repeat_or_apply ccfg w wall (some cid) command o p).0 ≡ ok b
      → IsKnown (some cid) command (repeat_or_apply ccfg w wall (some cid) command o p).1
  unfolding apply_new
  repeat_or_apply-IsKnown cid command (some report) p b e h = inl (ground arith)
  repeat_or_apply-IsKnown cid command none p b e h =
      keep_result-IsKnown cid command _ _ b (apply_usable command (wall p.trace) p.trace) h

  pub take_keyed-IsKnown :
      (cid : Option Text) (command : Json) (p : Pusher) (b : Bool)
      → key_of (id_of command) ≡ ok cid
      → (take_keyed ccfg w wall (ok cid) command p).0 ≡ ok b
      → IsKnown cid command (take_keyed ccfg w wall (ok cid) command p).1
  take_keyed-IsKnown none command p b e h = keyless_command command e
  take_keyed-IsKnown (some cid) command p b e h =
      repeat_or_apply-IsKnown cid command (lookup cid p.applied) p b refl h
