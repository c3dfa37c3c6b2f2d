-- ===== src/Dash/Resending.antt =====
-- That nix/gateway.py's pusher applies a decision of Dash once, though Dash may send it again.
use rebekah.Prelude.{
  ℕ, suc, ◌+◌, ◌≤◌, ◌≡◌, refl, ap, ◌∙◌, Bool, true, false, ◌||◌, Option, none, some, List, [], ◌∷◌,
  arith, length, take, length-take_le, inl, inr, All,
}
use mathlib.Core.Path.{subst}
use rebekah.Prelude.Text.{Text, codes}
use rebekah.Prelude.Dict.{Dict, has_key}
use rebekah.Prelude.Exec.{Result, ok, err, Raised, Exec}
use rebekah.Json.{Json, as_list}
use rebekah.Decisions.Calls.{Trace, World, Config}
use rebekah.Decisions.Check.{command_id}
use rebekah.Decisions.Reports.{Report}
use rebekah.Dash.Pusher.{Pusher}
use rebekah.Dash.Commands.{
  max_commands, max_remembered, answer_field, id_of, key_of, evict, apply_new, repeat_or_apply,
  remembered, take_keyed, take_command, take_rest, take_each, evicted, take_listed, take_commands,
}
use rebekah.Dash.Remembering.{
  IsKnown, Grows, take_keyed-Grows, take_keyed-IsKnown, apply_unusable, evict-short, length-evict,
}

module _ (ccfg : Config) (w : World) (wall : Trace → ℕ) where
  -- A command that was taken without a raise.
  record WasTaken (p : Pusher) (command : Json) : Type 0 where
    cid : Option Text
    keyed : key_of (id_of command) ≡ ok cid
    known : IsKnown ccfg w wall cid command p

  IsKnown-kept :
      (cid : Option Text) (command : Json) (p q : Pusher)
      → ((k : Text) → has_key k p.applied ≡ true → has_key k q.applied ≡ true)
      → IsKnown ccfg w wall cid command p
      → IsKnown ccfg w wall cid command q
  IsKnown-kept none command p q kept k = k
  IsKnown-kept (some cid) command p q kept (inl k) = inl (kept cid k)
  IsKnown-kept (some cid) command p q kept (inr k) = inr k

  WasTaken-kept :
      (command : Json) (p q : Pusher)
      → ((k : Text) → has_key k p.applied ≡ true → has_key k q.applied ≡ true)
      → WasTaken p command
      → WasTaken q command
  WasTaken-kept command p q kept t = record {
    cid = t.cid;
    keyed = t.keyed;
    known = IsKnown-kept t.cid command p q kept t.known;
  }

  keyed-WasTaken :
      (k : Result Raised (Option Text)) (command : Json) (p : Pusher) (b : Bool)
      → key_of (id_of command) ≡ k
      → (take_keyed ccfg w wall k command p).0 ≡ ok b
      → WasTaken (take_keyed ccfg w wall k command p).1 command
  keyed-WasTaken (err e) command p b ek h = cc
  keyed-WasTaken (ok cid) command p b ek h = record {
    cid = cid;
    keyed = ek;
    known = take_keyed-IsKnown ccfg w wall cid command p b ek h;
  }

  take_command-WasTaken :
      (command : Json) (p : Pusher) (b : Bool)
      → (take_command ccfg w wall command p).0 ≡ ok b
      → WasTaken (take_command ccfg w wall command p).1 command
  unfolding take_command
  take_command-WasTaken command p b h = keyed-WasTaken _ command p b refl h

  take_command-Grows :
      (command : Json) (p : Pusher) → Grows ccfg w wall p (take_command ccfg w wall command p).1
  unfolding take_command
  take_command-Grows command p = take_keyed-Grows ccfg w wall _ command p

  -- The whole run keeps what was remembered, and remembers at most one more for each command.
  record GrowsBy (n : ℕ) (p q : Pusher) : Type 0 where
    kept_all : (k : Text) → has_key k p.applied ≡ true → has_key k q.applied ≡ true
    at_most : length q.applied ≤ n + length p.applied

  rest-GrowsBy :
      (n : ℕ) (f : Bool → Exec Pusher Bool) (ran : Bool) (r : Result Raised Bool) (p q : Pusher)
      → ((b : Bool) → GrowsBy n q (f b q).1)
      → Grows ccfg w wall p q
      → GrowsBy (suc n) p (take_rest ccfg w wall f ran r q).1
  rest-GrowsBy n f ran (err e) p q h g = record {
    kept_all = g.kept;
    at_most = omega (arith, g.more);
  }
  rest-GrowsBy n f ran (ok b) p q h g = record {
    kept_all = λ k e. (h (ran || b)).kept_all k (g.kept k e);
    at_most = omega (arith, g.more, (h (ran || b)).at_most);
  }

  take_each-GrowsBy :
      (commands : List Json) (ran : Bool) (p : Pusher)
      → GrowsBy (length commands) p (take_each ccfg w wall commands ran p).1
  unfolding take_each
  take_each-GrowsBy [] ran p = record { kept_all = λ k h. h; at_most = omega arith }
  take_each-GrowsBy (command ∷ commands) ran p =
      let q = (take_command ccfg w wall command p).1 in
      rest-GrowsBy (length commands) (take_each ccfg w wall commands) ran
        (take_command ccfg w wall command p).0 p q (λ b. take_each-GrowsBy commands b q)
        (take_command-Grows command p)

  -- After a run that did not raise, every command was taken.
  rest-AllTaken :
      (command : Json) (commands : List Json) (ran : Bool) (r : Result Raised Bool) (q : Pusher)
      (b : Bool)
      → ((c : Bool) → r ≡ ok c → WasTaken q command)
      → ((c d : Bool)
          → (take_each ccfg w wall commands c q).0 ≡ ok d
          → All (WasTaken (take_each ccfg w wall commands c q).1) commands)
      → (take_rest ccfg w wall (take_each ccfg w wall commands) ran r q).0 ≡ ok b
      → All
          (WasTaken (take_rest ccfg w wall (take_each ccfg w wall commands) ran r q).1)
          (command ∷ commands)
  rest-AllTaken command commands ran (err e) q b first rest h = cc
  rest-AllTaken command commands ran (ok c) q b first rest h = (
    WasTaken-kept command q _ (take_each-GrowsBy commands (ran || c) q).kept_all (first c refl),
    rest (ran || c) b h,
  )

  take_each-AllTaken :
      (commands : List Json) (ran : Bool) (p : Pusher) (b : Bool)
      → (take_each ccfg w wall commands ran p).0 ≡ ok b
      → All (WasTaken (take_each ccfg w wall commands ran p).1) commands
  unfolding take_each
  take_each-AllTaken [] ran p b h = tt
  take_each-AllTaken (command ∷ commands) ran p b h =
      let q = (take_command ccfg w wall command p).1 in
      rest-AllTaken command commands ran (take_command ccfg w wall command p).0 q b
        (λ c e. take_command-WasTaken command p c e) (λ c d e. take_each-AllTaken commands c q d e)
        h

  -- A run that does nothing but report again.
  record IsQuiet (ran : Bool) (p : Pusher) (r : Result Raised Bool × Pusher) : Type 0 where
    result : r.0 ≡ ok ran
    same_trace : r.1.trace ≡ p.trace
    same_applied : r.1.applied ≡ p.applied

  apply_unusable-IsQuiet :
      (cid : Option Text) (command : Json) (p : Pusher)
      → command_id command ≡ none
      → IsQuiet false p (apply_new ccfg w wall cid command p)
  unfolding apply_new
  apply_unusable-IsQuiet none command p e =
      rw (apply_unusable ccfg w wall command (wall p.trace) p.trace e)
        record { result = refl; same_trace = refl; same_applied = refl }
  apply_unusable-IsQuiet (some cid) command p e =
      rw (apply_unusable ccfg w wall command (wall p.trace) p.trace e)
        record { result = refl; same_trace = refl; same_applied = refl }

  repeat-IsQuiet :
      (cid : Option Text) (command : Json) (p : Pusher) (o : Option Report)
      → IsKnown ccfg w wall cid command p
      → remembered ccfg w wall cid p ≡ o
      → IsQuiet false p (repeat_or_apply ccfg w wall cid command o p)
  repeat-IsQuiet none command p (some report) k e = record {
    result = refl;
    same_trace = refl;
    same_applied = refl;
  }
  repeat-IsQuiet none command p none k e = apply_unusable-IsQuiet none command p k
  repeat-IsQuiet (some cid) command p (some report) k e = record {
    result = refl;
    same_trace = refl;
    same_applied = refl;
  }
  repeat-IsQuiet (some cid) command p none (inl k) e = ground arith
  repeat-IsQuiet (some cid) command p none (inr k) e = apply_unusable-IsQuiet (some cid) command p k

  take_command-IsQuiet :
      (command : Json) (p : Pusher)
      → WasTaken p command
      → IsQuiet false p (take_command ccfg w wall command p)
  unfolding take_command
  take_command-IsQuiet command p t = rw (t.keyed) (repeat-IsQuiet t.cid command p _ t.known refl)

  rest-IsQuiet :
      (f : Bool → Exec Pusher Bool) (ran : Bool) (p : Pusher) (r : Result Raised Bool × Pusher)
      → IsQuiet false p r
      → ((b : Bool) → IsQuiet b r.1 (f b r.1))
      → IsQuiet ran p (take_rest ccfg w wall f ran r.0 r.1)
  rest-IsQuiet f ran p (err e, q) t h = cc t.result
  rest-IsQuiet f ran p (ok true, q) t h = cc t.result
  rest-IsQuiet f ran p (ok false, q) t h =
      let g = h (ran || false) in
      record {
        result = ground (arith, g.result);
        same_trace = g.same_trace ∙ t.same_trace;
        same_applied = g.same_applied ∙ t.same_applied;
      }

  AllTaken-kept :
      (commands : List Json) (p q : Pusher)
      → q.applied ≡ p.applied
      → All (WasTaken p) commands
      → All (WasTaken q) commands
  AllTaken-kept [] p q e t = tt
  AllTaken-kept (command ∷ commands) p q e t = (
    WasTaken-kept command p q (λ k h. ap (has_key k) e ∙ h) t.0,
    AllTaken-kept commands p q e t.1,
  )

  take_each-IsQuiet :
      (commands : List Json) (ran : Bool) (p : Pusher)
      → All (WasTaken p) commands
      → IsQuiet ran p (take_each ccfg w wall commands ran p)
  unfolding take_each
  take_each-IsQuiet [] ran p t = record { result = refl; same_trace = refl; same_applied = refl }
  take_each-IsQuiet (command ∷ commands) ran p t =
      let r = take_command ccfg w wall command p in
      let first = take_command-IsQuiet command p t.0 in
      rest-IsQuiet (take_each ccfg w wall commands) ran p r first (λ b.
        take_each-IsQuiet commands b r.1 (AllTaken-kept commands p r.1 first.same_applied t.1))

  evicted-IsQuiet :
      (p : Pusher) (r : Result Raised Bool × Pusher)
      → length p.applied ≤ max_remembered
      → IsQuiet false p r
      → IsQuiet false p (evicted ccfg w wall r.0 r.1)
  evicted-IsQuiet p (err e, q) short t = cc t.result
  evicted-IsQuiet p (ok b, q) short t = record {
    result = t.result;
    same_trace = t.same_trace;
    same_applied = ap evict t.same_applied ∙ evict-short p.applied short;
  }

  again-IsQuiet :
      (commands : List Json) (p : Pusher) (b : Bool) (r : Result Raised Bool × Pusher)
      → take_each ccfg w wall commands false p ≡ r
      → length r.1.applied ≤ max_remembered
      → (evicted ccfg w wall r.0 r.1).0 ≡ ok b
      → IsQuiet false (evicted ccfg w wall r.0 r.1).1 (
          let s = take_each ccfg w wall commands false (evicted ccfg w wall r.0 r.1).1 in
          evicted ccfg w wall s.0 s.1)
  again-IsQuiet commands p b (err e, q) er short h = cc
  again-IsQuiet commands p b (ok c, q) er short h =
      let kept = evict-short q.applied short in
      let s = record q { applied = evict q.applied } in
      evicted-IsQuiet s (take_each ccfg w wall commands false s) (length-evict q.applied) (
        take_each-IsQuiet commands false s (
          AllTaken-kept commands q s kept (
            subst (λ t. All (WasTaken t.1) commands) er
              (take_each-AllTaken commands false p c (ap (λ t. t.0) er)))))

  take_listed-IsQuiet :
      (commands : Option (List Json)) (p : Pusher) (b : Bool)
      → length p.applied + max_commands ≤ max_remembered
      → (take_listed ccfg w wall commands p).0 ≡ ok b
      → IsQuiet false
          (take_listed ccfg w wall commands p).1
          (take_listed ccfg w wall commands (take_listed ccfg w wall commands p).1)
  take_listed-IsQuiet none p b short h = record {
    result = refl;
    same_trace = refl;
    same_applied = refl;
  }
  take_listed-IsQuiet (some commands) p b short h =
      let grown = take_each-GrowsBy (take max_commands commands) false p in
      again-IsQuiet (take max_commands commands) p b _ refl
        (omega (arith, grown.at_most, length-take_le max_commands commands)) h

  -- Where a response of Dash was taken without a raise, and the pusher remembered at most 480
  -- decisions before, the same response, sent again, does nothing: it reports that nothing ran,
  -- makes no call, and changes nothing that is remembered.
  pub take_commands_again :
      (answered : Option (Dict Json)) (p : Pusher) (ran : Bool)
      → length p.applied + max_commands ≤ max_remembered
      → (take_commands ccfg w wall answered p).0 ≡ ok ran
      → ((take_commands ccfg w wall answered (take_commands ccfg w wall answered p).1).0 ≡ ok false)
        × ((take_commands ccfg w wall answered (take_commands ccfg w wall answered p).1).1.trace
            ≡ (take_commands ccfg w wall answered p).1.trace)
        × ((take_commands ccfg w wall answered (take_commands ccfg w wall answered p).1).1.applied
            ≡ (take_commands ccfg w wall answered p).1.applied)
  unfolding take_commands
  take_commands_again answered p ran short h =
      let q =
        take_listed-IsQuiet (as_list (answer_field answered (codes "commands"))) p ran short h in
      (q.result, q.same_trace, q.same_applied)

  evicted_short :
      (r : Result Raised Bool × Pusher) (ran : Bool)
      → (evicted ccfg w wall r.0 r.1).0 ≡ ok ran
      → length (evicted ccfg w wall r.0 r.1).1.applied ≤ max_remembered
  evicted_short (err e, q) ran h = cc
  evicted_short (ok b, q) ran h = length-evict q.applied

  listed_short :
      (commands : Option (List Json)) (p : Pusher) (ran : Bool)
      → length p.applied ≤ max_remembered
      → (take_listed ccfg w wall commands p).0 ≡ ok ran
      → length (take_listed ccfg w wall commands p).1.applied ≤ max_remembered
  listed_short none p ran short h = short
  listed_short (some commands) p ran short h = evicted_short _ ran h

  -- The pusher never remembers more than 500 decisions after a response that it took without a raise,
  -- where it did not before.
  pub take_commands_bounded :
      (answered : Option (Dict Json)) (p : Pusher) (ran : Bool)
      → length p.applied ≤ max_remembered
      → (take_commands ccfg w wall answered p).0 ≡ ok ran
      → length (take_commands ccfg w wall answered p).1.applied ≤ max_remembered
  unfolding take_commands
  take_commands_bounded answered p ran short h = listed_short _ p ran short h
