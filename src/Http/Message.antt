-- ===== src/Http/Message.antt =====
-- Requests and responses as `Handler` of nix/gateway.py reads and writes them: header lookup, the
-- length of a body, `_write_head`, `_fail` and `_json`.
use rebekah.Prelude.{
  ℕ, ◌+◌, ◌*◌, ◌-◌, Bool, true, false, not, ◌&&◌, Option, none, some, List, [], ◌∷◌, ◌++◌, length,
  take, if◌then◌else◌, ltb, leb, ◌==◌, String,
}
use rebekah.Prelude.Int.{ℤ, pos, negsuc, ◌-ℤ◌}
use rebekah.Prelude.Text.{Text, codes, text_eq, lower, strip, decimal, is_empty, is_member}
use rebekah.Prelude.Sort.{utf8}
use rebekah.Prelude.Exec.{Result, ok, err, Raised, value_error}
use rebekah.Json.{Json}
use rebekah.Json.Dumps.{dumps_in_order}

abbrev pub Headers : Type 0
Headers = List (Text × Text)

-- What the handler reads: `stream` is all that the client sends after the headers.
pub record Request : Type 0 where
  pub method : Text
  pub path : Text
  pub headers : Headers
  pub stream : List ℕ

-- What it writes; `body` is empty for HEAD.
pub record Response : Type 0 where
  pub status : ℕ
  pub headers : Headers
  pub body : List ℕ

-- `self.headers.get(key)`: the first header of that name, in any case.
unfoldable pub header : Text → Headers → Option Text
unfolding lower
header key [] = none
header key ((k, v) ∷ hs) =
    let rest = header key hs in if text_eq (lower k) (lower key) then some v else rest

-- The digits of `int(text)`, which single underscores may group: the value, and how many.
abbrev digit : ℕ → Bool
digit c = leb 48 c && leb c 57

abbrev pub digits : Bool → ℕ → ℕ → Text → Option (ℕ × ℕ)
digits after n count [] = if after then some (n, count) else none
digits after n count (c ∷ s) =
    let number = digits true (n * 10 + (c - 48)) (count + 1) s in
    let grouped = digits false n count s in
    if digit c then number else if c == 95 && after then grouped else none

-- More than 4300 digits are refused.
abbrev signed : Bool → Option (ℕ × ℕ) → Result Raised ℤ
signed minus none = err value_error
signed minus (some (n, count)) =
    if ltb 4300 count then err value_error else ok (if minus then pos 0 -ℤ pos n else pos n)

abbrev unsigned : Text → Result Raised ℤ
unsigned [] = err value_error
unsigned (c ∷ s) =
    if c == 45
    then signed true (digits false 0 0 s)
    else if c == 43
    then signed false (digits false 0 0 s)
    else signed false (digits false 0 0 (c ∷ s))

-- `int(text)`
unfoldable pub int_of : Text → Result Raised ℤ
unfolding strip ◌-ℤ◌
int_of s = unsigned (strip s)

-- `int(self.headers.get("Content-Length") or 0)`
abbrev length_of : Option Text → Result Raised ℤ
length_of none = ok (pos 0)
length_of (some s) = if is_empty s then ok (pos 0) else int_of s

unfoldable pub content_length : Request → Result Raised ℤ
content_length r = length_of (header (codes "Content-Length") r.headers)

-- `self.rfile.read(n)`: all of the stream for a negative n.
unfoldable pub read : ℤ → List ℕ → List ℕ
read (pos n) stream = take n stream
read (negsuc n) stream = stream

-- `text.encode()`
unfoldable pub encode : Text → List ℕ
unfolding utf8
encode [] = []
encode (c ∷ s) = utf8 c ++ encode s

abbrev pub is_head : Request → Bool
is_head r = text_eq r.method (codes "HEAD")

-- `self.command not in ("GET", "HEAD")`
abbrev pub is_write : Request → Bool
is_write r = not (is_member r.method (codes "GET" ∷ codes "HEAD" ∷ []))

-- `_write_head` and the body behind it, which a HEAD request does not get.
unfoldable pub respond : Request → ℕ → Headers → List ℕ → Response
respond r status headers body = record {
  status = status;
  headers =
      (codes "X-Rebekah-Gateway", codes "1")
      ∷ (headers ++ (codes "Content-Length", decimal (length body)) ∷ []);
  body = if is_head r then [] else body;
}

-- `_fail`
unfoldable pub fail : Request → ℕ → String → Headers → Response
fail r status message extra =
    respond r status (extra ++ (codes "Content-Type", codes "text/plain; charset=utf-8") ∷ [])
      (encode (codes message ++ 10 ∷ []))

-- `_json`
unfoldable pub json : Request → ℕ → Json → Response
json r status v =
    respond r status
      ((codes "Content-Type", codes "application/json; charset=utf-8")
        ∷ (codes "Cache-Control", codes "no-store")
        ∷ [])
      (encode (dumps_in_order v))
