-- ===== src/Http/Pages.antt =====
-- `_serve_ui` of nix/gateway.py: the console's files, confined to the directory `ui_dir`.
use rebekah.Prelude.{
  ℕ, Bool, true, false, ◌||◌, Option, none, some, List, [], ◌∷◌, ◌++◌, if◌then◌else◌, ◌==◌,
}
use rebekah.Prelude.Text.{Text, codes, text_eq, is_empty, is_member, starts_with}
use rebekah.Http.Message.{Headers, Request, Response, is_write, fail, respond}

-- The file system and the table of types: `os.path.realpath`, a file that can be read, and
-- `mimetypes.guess_type(full)[0]`.
pub record Files : Type 0 where
  pub realpath : Text → Text
  pub read : Text → Option (List ℕ)
  pub guess_type : Text → Option Text

-- `path.split("/")`
abbrev pub split_slash : Text → Text × List Text
split_slash [] = ([], [])
split_slash (c ∷ s) =
    let (part, parts) = split_slash s in if c == 47 then ([], part ∷ parts) else (c ∷ part, parts)

abbrev pub parts_of : Text → List Text
parts_of s = let (part, parts) = split_slash s in part ∷ parts

-- `posixpath.normpath` of a path from the root: its components, the last one first.
abbrev pub up : List Text → List Text
up [] = []
up (c ∷ cs) = cs

unfoldable pub components : List Text → List Text → List Text
unfolding text_eq
components [] done = done
components (c ∷ cs) done =
    if is_empty c || text_eq c (codes ".")
    then components cs done
    else if text_eq c (codes "..")
    then components cs (up done)
    else components cs (c ∷ done)

-- The components joined by `/`, the last one first.
abbrev pub joined : List Text → Text
joined [] = []
joined (c ∷ []) = c
joined (c ∷ d ∷ cs) = joined (d ∷ cs) ++ codes "/" ++ c

abbrev pub named : List Text → Text
named [] = codes "index.html"
named (c ∷ cs) = joined (c ∷ cs)

-- `posixpath.normpath("/" + rel).lstrip("/")`, or the index.
unfoldable pub clean : Text → Text
clean rel = named (components (parts_of rel) [])

abbrev ends_slash : Text → Bool
ends_slash [] = true
ends_slash (c ∷ []) = c == 47
ends_slash (c ∷ d ∷ s) = ends_slash (d ∷ s)

-- `os.path.join(directory, path)`, where the path is not absolute.
unfoldable pub join_path : Text → Text → Text
join_path dir path = if ends_slash dir then dir ++ path else dir ++ codes "/" ++ path

-- `full == root or full.startswith(root + os.sep)`
abbrev pub is_inside : Text → Text → Bool
is_inside root full = text_eq full root || starts_with full (root ++ codes "/")

unfoldable pub content_type : Option Text → Text
unfolding starts_with text_eq
content_type none = codes "application/octet-stream"
content_type (some t) =
    if starts_with t (codes "text/")
      || is_member t (codes "application/javascript" ∷ codes "application/json" ∷ [])
    then t ++ codes "; charset=utf-8"
    else t

abbrev pub page_headers : Text → Headers
page_headers kind =
    (codes "Content-Type", kind)
    ∷ (codes "X-Content-Type-Options", codes "nosniff")
    ∷ (codes "Referrer-Policy", codes "no-referrer")
    ∷ (
      codes "Content-Security-Policy",
      codes
          "default-src 'self'; connect-src 'self'; img-src 'self' data:; style-src 'self' 'unsafe-inline'; script-src 'self' 'unsafe-inline'; base-uri 'none'; frame-ancestors 'none'",
    )
    ∷ []

abbrev pub page : Request → Text → Option (List ℕ) → Response
page r kind none = fail r 404 "not found" []
page r kind (some payload) = respond r 200 (page_headers kind) payload

-- What is answered for a real path, by whether the request writes and whether the path is inside.
abbrev pub opened : Files → Request → Text → Bool → Bool → Response
opened f r full true inside = fail r 405 "method not allowed" []
opened f r full false false = fail r 404 "not found" []
opened f r full false true = page r (content_type (f.guess_type full)) (f.read full)

unfoldable pub serve_ui : Files → Text → Text → Request → Response
serve_ui f ui_dir rel r =
    let full = f.realpath (join_path ui_dir (clean rel)) in
    opened f r full (is_write r) (is_inside (f.realpath ui_dir) full)
