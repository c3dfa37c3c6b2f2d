-- ===== src/Views/Bounded.antt =====
-- How much the oversight view of nix/gateway.py can hold.
use rebekah.Prelude.{
  ℕ, zero, suc, ◌≤◌, ◌≡◌, refl, Bool, true, false, Option, none, some, List, [], ◌∷◌, map, length,
  take, length-take_le, if◌then◌else◌, arith, inl, inr, ◌⊎◌, ◌==◌, All, All-append, ap,
}
use mathlib.Core.Path.{subst}
use rebekah.Prelude.Text.{Text, codes, text_eq}
use rebekah.Prelude.Dict.{Dict}
use rebekah.Prelude.Exec.{Result, ok, err, Raised, Exec, continue}
use rebekah.Json.{
  Json, null, boolean, int, float, str, arr, obj, array, as_list, get, or_list, dict_or_nil,
  elements, entries,
}
use rebekah.Json.Dumps.{text_of, text_of-bound}
use rebekah.Decisions.Calls.{Trace, World, Config}
use rebekah.Views.Oversight.{
  text_json, text_field, argument_strings, slice_of, bounded_all, item_of, flagged, sliced,
  hold_item, join, bridge_items, gate_items, add_items, bridge_listed, bridge_found, gate_listed,
  gate_found, bridge_reply, ask_bridge, ask_gates, gate_names, first_items, holds,
}

-- A field that is absent, or a text within a limit.
abbrev pub Fits : ℕ → Json → Type 0
Fits limit v = (v ≡ null) ⊎ ((s : Text) × (v ≡ str s) × (length s ≤ limit))

-- A list of at most 10 such fields.
abbrev pub FitsAll : ℕ → Json → Type 0
FitsAll limit v = (vs : List Json) × (v ≡ array vs) × (length vs ≤ 10) × All (Fits limit) vs

-- What a hold can show: a text of each kind within its limit, and at most ten arguments and ten flags.
pub record IsBounded (item : Json) : Type 0 where
  pub request_id : Fits 80 (get (dict_or_nil (some item)) (codes "request_id"))
  pub action : Fits 200 (get (dict_or_nil (some item)) (codes "action"))
  pub arguments : FitsAll 200 (get (dict_or_nil (some item)) (codes "arguments"))
  pub risk_flags : FitsAll 80 (get (dict_or_nil (some item)) (codes "risk_flags"))

text_json-Fits :
    (limit : ℕ) (v : Json) (o : Option Text) → text_of v limit ≡ o → Fits limit (text_json o)
text_json-Fits limit v none e = inl refl
text_json-Fits limit v (some s) e = inr (s, refl, text_of-bound v limit e)

text_field-Fits : (v : Json) (limit : ℕ) → Fits limit (text_field v limit)
text_field-Fits v limit = text_json-Fits limit v (text_of v limit) refl

fields-Fits : (limit : ℕ) (vs : List Json) → All (Fits limit) (map (λ v. text_field v limit) vs)
fields-Fits limit [] = tt
fields-Fits limit (v ∷ vs) = (text_field-Fits v limit, fields-Fits limit vs)

length-map : {A B : Type 0} (f : A → B) (xs : List A) → length (map f xs) ≡ length xs
length-map f [] = refl
length-map f (x ∷ xs) = omega (arith, length-map f xs)

bounded_all-FitsAll :
    (limit : ℕ) (vs : List Json) → length vs ≤ 10 → FitsAll limit (bounded_all limit vs)
bounded_all-FitsAll limit vs h = (
  map (λ v. text_field v limit) vs,
  refl,
  omega (arith, h, length-map (λ v. text_field v limit) vs),
  fields-Fits limit vs,
)

slice_of-length : (n : ℕ) (v : Json) (vs : List Json) → slice_of n v ≡ ok vs → length vs ≤ n
unfolding slice_of
slice_of-length n (arr us) vs e =
    let q : take n (elements us) ≡ vs = cc in
    subst (λ x. length x ≤ n) q (length-take_le n (elements us))
slice_of-length n (str s) vs e =
    let q : map (λ c. str (c ∷ [])) (take n s) ≡ vs = cc in
    subst (λ x. length x ≤ n) q
      (omega (arith, length-map (λ c. str (c ∷ [])) (take n s), length-take_le n s))
slice_of-length n null vs e = cc
slice_of-length n (boolean b) vs e = cc
slice_of-length n (int i) vs e = cc
slice_of-length n (float t) vs e = cc
slice_of-length n (obj fs) vs e = cc

module _ (iso_ms : Json → Json) where
  item_of-IsBounded :
      (held : Dict Json) (source : Text) (deadline : Json) (evidence policy : Dict Json)
      (flags : List Json)
      → length flags ≤ 10
      → IsBounded (item_of iso_ms held source deadline evidence policy flags)
  unfolding get text_eq
  item_of-IsBounded held source deadline evidence policy flags h = record {
    request_id = text_field-Fits _ 80;
    action = text_field-Fits _ 200;
    arguments =
        bounded_all-FitsAll 200 _
          (length-take_le 10 (argument_strings (get held (codes "arguments"))));
    risk_flags = bounded_all-FitsAll 80 flags h;
  }

  -- An outcome whose items are all bounded.
  abbrev AllBounded : Result Raised (List Json) → Type 0
  AllBounded (ok items) = All IsBounded items
  AllBounded (err e) = Unit

  abbrev OneBounded : Result Raised Json → Type 0
  OneBounded (ok item) = IsBounded item
  OneBounded (err e) = Unit

  flagged-OneBounded :
      (held : Dict Json) (source : Text) (deadline : Json) (evidence policy : Dict Json)
      (r : Result Raised Json) (f : Result Raised (List Json))
      → sliced iso_ms r ≡ f
      → OneBounded (flagged iso_ms held source deadline evidence policy f)
  flagged-OneBounded held source deadline evidence policy r (err e) h = tt
  flagged-OneBounded held source deadline evidence policy (err e) (ok flags) h = cc
  flagged-OneBounded held source deadline evidence policy (ok v) (ok flags) h =
      item_of-IsBounded held source deadline evidence policy flags
        (slice_of-length 10 (or_list v) flags h)

  hold_item-OneBounded :
      (held : Dict Json) (source : Text) (deadline evidence : Json)
      → OneBounded (hold_item iso_ms held source deadline evidence)
  unfolding hold_item
  hold_item-OneBounded held source deadline evidence =
      flagged-OneBounded held source deadline _ _ _ _ refl

  join-AllBounded :
      (item : Result Raised Json) (rest : Result Raised (List Json))
      → OneBounded item
      → AllBounded rest
      → AllBounded (join iso_ms item rest)
  join-AllBounded (err e) rest i r = tt
  join-AllBounded (ok item) (err e) i r = tt
  join-AllBounded (ok item) (ok items) i r = (i, r)

  bridge_items-AllBounded : (vs : List Json) → AllBounded (bridge_items iso_ms vs)
  unfolding bridge_items
  bridge_items-AllBounded [] = tt
  bridge_items-AllBounded (obj fs ∷ vs) =
      join-AllBounded _ _ (hold_item-OneBounded _ _ _ _) (bridge_items-AllBounded vs)
  bridge_items-AllBounded (null ∷ vs) = bridge_items-AllBounded vs
  bridge_items-AllBounded (boolean b ∷ vs) = bridge_items-AllBounded vs
  bridge_items-AllBounded (int i ∷ vs) = bridge_items-AllBounded vs
  bridge_items-AllBounded (float t ∷ vs) = bridge_items-AllBounded vs
  bridge_items-AllBounded (str s ∷ vs) = bridge_items-AllBounded vs
  bridge_items-AllBounded (arr us ∷ vs) = bridge_items-AllBounded vs

  either_bounded :
      (b : Bool) (x y : Result Raised (List Json))
      → AllBounded x
      → AllBounded y
      → AllBounded (if b then x else y)
  either_bounded true x y hx hy = hx
  either_bounded false x y hx hy = hy

  gate_items-AllBounded : (name : Text) (vs : List Json) → AllBounded (gate_items iso_ms name vs)
  unfolding gate_items
  gate_items-AllBounded name [] = tt
  gate_items-AllBounded name (obj fs ∷ vs) =
      either_bounded _ _ _
        (join-AllBounded _ _ (hold_item-OneBounded _ _ _ _) (gate_items-AllBounded name vs))
        (gate_items-AllBounded name vs)
  gate_items-AllBounded name (null ∷ vs) = gate_items-AllBounded name vs
  gate_items-AllBounded name (boolean b ∷ vs) = gate_items-AllBounded name vs
  gate_items-AllBounded name (int i ∷ vs) = gate_items-AllBounded name vs
  gate_items-AllBounded name (float t ∷ vs) = gate_items-AllBounded name vs
  gate_items-AllBounded name (str s ∷ vs) = gate_items-AllBounded name vs
  gate_items-AllBounded name (arr us ∷ vs) = gate_items-AllBounded name vs

  abbrev FoundBounded : Result Raised (Bool × List Json) → Type 0
  FoundBounded (ok (stale, items)) = All IsBounded items
  FoundBounded (err e) = Unit

  add_items-FoundBounded :
      (found : Bool × List Json) (more : Result Raised (List Json))
      → All IsBounded found.1
      → AllBounded more
      → FoundBounded (add_items iso_ms found more)
  add_items-FoundBounded (stale, items) (err e) h m = tt
  add_items-FoundBounded (stale, items) (ok more) h m = All-append IsBounded items more h m

  listed-FoundBounded : (r : Result Raised (List Json)) → FoundBounded (bridge_listed iso_ms r)
  listed-FoundBounded (err e) = tt
  listed-FoundBounded (ok vs) = add_items-FoundBounded (false, []) _ tt (bridge_items-AllBounded vs)

  either_found :
      (b : Bool) (x y : Result Raised (Bool × List Json))
      → FoundBounded x
      → FoundBounded y
      → FoundBounded (if b then x else y)
  either_found true x y hx hy = hx
  either_found false x y hx hy = hy

  bridge_found-FoundBounded :
      (status : Option ℕ) (v : Json) → FoundBounded (bridge_found iso_ms (status, v))
  bridge_found-FoundBounded none v = tt
  bridge_found-FoundBounded (some status) (obj fs) =
      either_found (status == 200)
        (bridge_listed iso_ms (slice_of 100 (or_list (get (entries fs) (codes "items")))))
        (ok (true, []))
        (listed-FoundBounded (slice_of 100 (or_list (get (entries fs) (codes "items"))))) tt
  bridge_found-FoundBounded (some status) null = tt
  bridge_found-FoundBounded (some status) (boolean b) = tt
  bridge_found-FoundBounded (some status) (int i) = tt
  bridge_found-FoundBounded (some status) (float t) = tt
  bridge_found-FoundBounded (some status) (str s) = tt
  bridge_found-FoundBounded (some status) (arr us) = tt

  gate_listed-FoundBounded :
      (name : Text) (found : Bool × List Json) (actions : Option (List Json))
      → All IsBounded found.1
      → FoundBounded (gate_listed iso_ms name found actions)
  gate_listed-FoundBounded name (stale, items) none h = h
  gate_listed-FoundBounded name found (some actions) h =
      add_items-FoundBounded found _ h (gate_items-AllBounded name (take 100 actions))

  gate_found-FoundBounded :
      (name : Text) (found : Bool × List Json) (r : Result Raised Json)
      → All IsBounded found.1
      → FoundBounded (gate_found iso_ms name found r)
  gate_found-FoundBounded name found (err e) h = tt
  gate_found-FoundBounded name found (ok v) h = gate_listed-FoundBounded name found (as_list v) h

  take-Bounded : (n : ℕ) (vs : List Json) → All IsBounded vs → All IsBounded (take n vs)
  take-Bounded zero vs h = tt
  take-Bounded (suc n) [] h = tt
  take-Bounded (suc n) (v ∷ vs) h = (h.0, take-Bounded n vs h.1)

  module _ (cfg : Config) (w : World) where
    then_gates :
        (go_on : Bool × List Json → Exec Trace (Bool × List Json))
        (r : Result Raised (Bool × List Json)) (t : Trace)
        → ((found : Bool × List Json) (u : Trace)
            → All IsBounded found.1
            → FoundBounded (go_on found u).0)
        → FoundBounded r
        → FoundBounded (continue r go_on t).0
    then_gates go_on (err e) t h b = tt
    then_gates go_on (ok found) t h b = h found t b

    ask_gates-FoundBounded :
        (names : List Text) (found : Bool × List Json) (t : Trace)
        → All IsBounded found.1
        → FoundBounded (ask_gates iso_ms cfg w names found t).0
    unfolding ask_gates
    ask_gates-FoundBounded [] found t h = h
    ask_gates-FoundBounded (name ∷ names) found t h =
        then_gates (ask_gates iso_ms cfg w names) _ _ (λ f u b. ask_gates-FoundBounded names f u b)
          (gate_found-FoundBounded name found _ h)

    first_items-Bounded :
        (r : Result Raised (Bool × List Json)) (t : Trace) (stale : Bool) (items : List Json)
        → FoundBounded r
        → (continue r (first_items iso_ms cfg w) t).0 ≡ ok (stale, items)
        → (length items ≤ 100) × All IsBounded items
    first_items-Bounded (err e) t stale items b h = cc
    first_items-Bounded (ok (s, all)) t stale items b h =
        let q : take 100 all ≡ items = ap (λ r. elim r [ ok f ↦ f.1 | err e ↦ [] ]) h in
        subst (λ x. (length x ≤ 100) × All IsBounded x) q
          (length-take_le 100 all, take-Bounded 100 all b)

    -- The oversight view lists at most 100 holds, whatever Ephor and its gates answer, and of each hold
    -- an id of at most 80 characters, an action of at most 200, at most ten arguments of at most 200 and
    -- ten risk flags of at most 80.
    pub holds-IsBounded :
        (t : Trace) (stale : Bool) (items : List Json)
        → (holds iso_ms cfg w t).0 ≡ ok (stale, items)
        → (length items ≤ 100) × All IsBounded items
    unfolding holds ask_bridge
    holds-IsBounded t stale items h =
        first_items-Bounded _ _ stale items
          (then_gates (ask_gates iso_ms cfg w (gate_names iso_ms cfg w)) _ _
            (λ f u b. ask_gates-FoundBounded (gate_names iso_ms cfg w) f u b)
            (bridge_found-FoundBounded (bridge_reply iso_ms cfg w t).0.0
              (bridge_reply iso_ms cfg w t).0.1))
          h
