-- ===== src/Bridge/Pump.antt =====
-- `pump` of nix/mcp-bridge.py: a loop of reads and writes that ends at the end of the stream or at
-- an OSError, and then calls `done`.
use rebekah.Prelude.{
  ℕ, zero, suc, ap, sym, ◌∙◌, ◌≡◌, refl, true, false, Bool, Option, none, some, List, [], ◌∷◌, ◌++◌,
  take, drop, append_assoc,
}

abbrev pub Bytes : Type 0
Bytes = List ℕ

-- What one round of the loop meets: a read that fails or returns bytes, and a write that takes all
-- of them, or fails after the first so many.
pub record Round : Type 0 where
  pub read : Option Bytes
  pub fails_after : Option ℕ

-- What the loop has done: the bytes that it passed on, and how often it called `done`. Where the
-- rounds run out, the loop is still waiting for a read.
pub record Copied : Type 0 where
  pub sent : Bytes
  pub done : ℕ

ended : Bytes → Copied
ended bs = record { sent = bs; done = 1 }

prepend : Bytes → Copied → Copied
prepend bs c = record c { sent = bs ++ c.sent }

-- One round, with what the rest of the loop would do.
after_read : Option Bytes → Option ℕ → Copied → Copied
unfolding ended prepend
after_read none fails rest = ended []
after_read (some []) fails rest = ended []
after_read (some (b ∷ bs)) (some n) rest = ended (take n (b ∷ bs))
after_read (some (b ∷ bs)) none rest = prepend (b ∷ bs) rest

unfoldable pub pump : List Round → Copied
unfolding after_read
pump [] = record { sent = []; done = 0 }
pump (r ∷ rs) = after_read r.read r.fails_after (pump rs)

-- All that the other side sent, up to its end or a failure.
abbrev before_end : Option Bytes → Bytes → Bytes
before_end none rest = []
before_end (some []) rest = []
before_end (some (b ∷ bs)) rest = (b ∷ bs) ++ rest

abbrev pub incoming : List Round → Bytes
incoming [] = []
incoming (r ∷ rs) = before_end r.read (incoming rs)

-- Whether every write takes all of its bytes.
abbrev pub Accepts : List Round → Type 0
Accepts [] = Unit
Accepts (r ∷ rs) = (r.fails_after ≡ none) × Accepts rs

-- Whether the loop meets its end: the last of its rounds is not a wait.
abbrev is_end : Option Bytes → Option ℕ → Bool → Bool
is_end none fails rest = true
is_end (some []) fails rest = true
is_end (some (b ∷ bs)) (some n) rest = true
is_end (some (b ∷ bs)) none rest = rest

abbrev pub meets_end : List Round → Bool
meets_end [] = false
meets_end (r ∷ rs) = is_end r.read r.fails_after (meets_end rs)

abbrev pub as_count : Bool → ℕ
as_count true = 1
as_count false = 0

take-drop : (n : ℕ) (bs : Bytes) → take n bs ++ drop n bs ≡ bs
take-drop zero bs = refl
take-drop (suc n) [] = refl
take-drop (suc n) (b ∷ bs) = ap (λ t. b ∷ t) (take-drop n bs)

abbrev Passes : Bytes → Copied → Bool → Type 0
Passes all c over = ((rest : Bytes) × (c.sent ++ rest ≡ all)) × (c.done ≡ as_count over)

after_read-Passes :
    (r : Option Bytes) (fails : Option ℕ) (all : Bytes) (c : Copied) (over : Bool)
    → Passes all c over
    → Passes (before_end r all) (after_read r fails c) (is_end r fails over)
unfolding after_read
after_read-Passes none fails all c over p = (([], refl), refl)
after_read-Passes (some []) fails all c over p = (([], refl), refl)
after_read-Passes (some (b ∷ bs)) (some n) all c over p = (
  (
    drop n (b ∷ bs) ++ all,
    (sym (append_assoc (take n (b ∷ bs)) (drop n (b ∷ bs)) all))
        ∙ ap (λ t. t ++ all) (take-drop n (b ∷ bs)),
  ),
  refl,
)
after_read-Passes (some (b ∷ bs)) none all c over p =
    ((p.0.0, append_assoc (b ∷ bs) c.sent p.0.0 ∙ ap (λ t. (b ∷ bs) ++ t) p.0.1), p.1)

-- Whatever fails, what was passed on is a beginning of what came in, byte for byte, and `done` was
-- called once if the loop met its end, and not before.
pub pump_passes :
    (rs : List Round)
    → ((rest : Bytes) × ((pump rs).sent ++ rest ≡ incoming rs))
      × ((pump rs).done ≡ as_count (meets_end rs))
unfolding pump
pump_passes [] = (([], refl), refl)
pump_passes (r ∷ rs) =
    after_read-Passes r.read r.fails_after (incoming rs) (pump rs) (meets_end rs) (pump_passes rs)

after_read_all :
    (r : Option Bytes) (all : Bytes) (c : Copied)
    → c.sent ≡ all
    → (after_read r none c).sent ≡ before_end r all
unfolding after_read
after_read_all none all c e = refl
after_read_all (some []) all c e = refl
after_read_all (some (b ∷ bs)) all c e = ap (λ t. (b ∷ bs) ++ t) e

-- Where every write takes its bytes, all that came in was passed on.
pub pump_all : (rs : List Round) → Accepts rs → (pump rs).sent ≡ incoming rs
unfolding pump
pump_all [] h = refl
pump_all (r ∷ rs) h = rw (h.0) (after_read_all r.read (incoming rs) (pump rs) (pump_all rs h.1))
