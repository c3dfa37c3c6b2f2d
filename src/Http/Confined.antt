-- ===== src/Http/Confined.antt =====
-- The console's files in nix/gateway.py's `_serve_ui`: which paths a request can name, and which files
-- can be answered.
use rebekah.Prelude.{
  ℕ, ◌≡◌, refl, Bool, true, false, not, ◌&&◌, ◌||◌, some, List, [], ◌∷◌, ◌++◌, arith, Bool-cases,
  sym, inl, inr, All, All-append, ◌==◌,
}
use mathlib.Core.Path.{subst}
use rebekah.Prelude.Text.{Text, codes, text_eq, is_empty, has_char}
use rebekah.Http.Message.{Request, Response, respond, is_write}
use rebekah.Http.Pages.{
  Files, parts_of, up, components, joined, named, clean, is_inside, join_path, content_type,
  page_headers,
}

-- A component that stays in its directory or goes down.
abbrev pub is_proper : Text → Bool
is_proper c =
    not (is_empty c)
    && not (text_eq c (codes "."))
    && not (text_eq c (codes ".."))
    && not (has_char 47 c)

abbrev IsProper : Text → Type 0
IsProper c = is_proper c ≡ true

abbrev HasNoSlash : Text → Type 0
HasNoSlash c = has_char 47 c ≡ false

parts_of-HasNoSlash : (s : Text) → All HasNoSlash (parts_of s)
parts_of-HasNoSlash [] = (refl, tt)
parts_of-HasNoSlash (c ∷ s) = elim (Bool-cases (c == 47)) [
  | inl e ↦ rw (e) (refl, parts_of-HasNoSlash s)
  | inr e ↦ rw (e) (ground (arith, (parts_of-HasNoSlash s).0), (parts_of-HasNoSlash s).1)
]

up-IsProper : (cs : List Text) → All IsProper cs → All IsProper (up cs)
up-IsProper [] h = tt
up-IsProper (c ∷ cs) h = h.1

components-IsProper :
    (cs done : List Text)
    → All HasNoSlash cs
    → All IsProper done
    → All IsProper (components cs done)
unfolding components
components-IsProper [] done n h = h
components-IsProper (c ∷ cs) done n h = elim (Bool-cases (is_empty c || text_eq c (codes "."))) [
  | inl e ↦ rw (e) (components-IsProper cs done n.1 h)
  | inr e ↦ elim (Bool-cases (text_eq c (codes ".."))) [
    | inl e' ↦ rw (e, e') (components-IsProper cs (up done) n.1 (up-IsProper done h))
    | inr e' ↦ rw (e, e') (components-IsProper cs (c ∷ done) n.1 (ground (arith, n.0), h))
  ]
]

parts_of-no_slash : (c : Text) → HasNoSlash c → parts_of c ≡ c ∷ []
parts_of-no_slash [] h = refl
parts_of-no_slash (d ∷ c) h = ground (arith, parts_of-no_slash c)

parts_of-slash : (s c : Text) → HasNoSlash c → parts_of (s ++ codes "/" ++ c) ≡ parts_of s ++ c ∷ []
parts_of-slash [] c h = rw (parts_of-no_slash c h) refl
parts_of-slash (d ∷ s) c h = elim (Bool-cases (d == 47)) [
  | inl e ↦ ground (arith, parts_of-slash s c h, e)
  | inr e ↦ ground (arith, parts_of-slash s c h, e)
]

IsProper-no_slash : (c : Text) → IsProper c → HasNoSlash c
IsProper-no_slash c h = ground arith

joined-IsProper :
    (c : Text) (cs : List Text) → All IsProper (c ∷ cs) → All IsProper (parts_of (joined (c ∷ cs)))
joined-IsProper c [] h =
    subst (All IsProper) (sym (parts_of-no_slash c (IsProper-no_slash c h.0))) h
joined-IsProper c (d ∷ cs) h =
    subst (All IsProper) (sym (parts_of-slash (joined (d ∷ cs)) c (IsProper-no_slash c h.0))) (
      All-append IsProper (parts_of (joined (d ∷ cs))) (c ∷ []) (joined-IsProper d cs h.1)
        (h.0, tt))

named-IsProper : (cs : List Text) → All IsProper cs → All IsProper (parts_of (named cs))
unfolding text_eq
named-IsProper [] h = (refl, tt)
named-IsProper (c ∷ cs) h = joined-IsProper c cs h

-- The path of a file, below the console's directory, has no component that is empty, `.` or `..`.
pub clean-IsProper : (rel : Text) → All IsProper (parts_of (clean rel))
unfolding clean
clean-IsProper rel =
    named-IsProper (components (parts_of rel) [])
      (components-IsProper (parts_of rel) [] (parts_of-HasNoSlash rel) tt)

module _ (f : Files) (ui_dir rel : Text) (r : Request) where
  -- The answer 200 with a file that was read from inside the directory: the cleaned path has no
  -- component that is empty, `.` or `..`, and what was opened is its real path below the directory.
  pub record IsPage (response : Response) : Type 0 where
    pub proper : All (λ c. is_proper c ≡ true) (parts_of (clean rel))
    pub full : Text
    pub resolved : full ≡ f.realpath (join_path ui_dir (clean rel))
    pub payload : List ℕ
    pub inside : is_inside (f.realpath ui_dir) full ≡ true
    pub found : f.read full ≡ some payload
    pub reading : is_write r ≡ false
    pub answer : response ≡ respond r 200 (page_headers (content_type (f.guess_type full))) payload
