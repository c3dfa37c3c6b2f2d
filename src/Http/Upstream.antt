-- ===== src/Http/Upstream.antt =====
-- What nix/gateway.py sends to a backend and what it passes back: the proxying half of `_handle`,
-- and `backend_get_json`.
use rebekah.Prelude.{
  ℕ, ◌+◌, ◌-◌, ◌*◌, ◌/◌, ◌%◌, suc, length, drop, Bool, not, ◌&&◌, Option, none, some, List, [], ◌∷◌,
  ◌++◌, select, if◌then◌else◌, ltb, ◌==◌,
}
use rebekah.Prelude.Text.{Text, codes, text_eq, lower, decimal, is_member, starts_with}
use rebekah.Prelude.Dict.{Dict, lookup, insert}
use rebekah.Json.{Json, null}
use rebekah.Http.Message.{Headers, Request, Response, header, encode, respond}

pub record Backend : Type 0 where
  pub host : Text
  pub port : ℕ
  pub credentials : Option (Text × Text)

-- One request to a backend, and what it answers; no answer stands for an exception.
pub record Call : Type 0 where
  pub host : Text
  pub port : ℕ
  pub method : Text
  pub path : Text
  pub headers : Headers
  pub body : List ℕ

pub record Reply : Type 0 where
  pub status : ℕ
  pub headers : Headers
  pub payload : List ℕ

-- `HOP_BY_HOP`
abbrev pub hop_by_hop : List Text
hop_by_hop =
    codes "connection"
    ∷ codes "keep-alive"
    ∷ codes "proxy-authenticate"
    ∷ codes "proxy-authorization"
    ∷ codes "te"
    ∷ codes "trailer"
    ∷ codes "transfer-encoding"
    ∷ codes "upgrade"
    ∷ codes "host"
    ∷ codes "authorization"
    ∷ []

abbrev pub is_hop : Text → Bool
is_hop key = is_member (lower key) hop_by_hop

-- `base64.b64encode`
abbrev base64_char : ℕ → ℕ
base64_char n =
    if ltb n 26
    then 65 + n
    else if ltb n 52
    then 71 + n
    else if ltb n 62
    then n - 4
    else if n == 62
    then 43
    else 47

unfoldable pub base64 : List ℕ → Text
base64 [] = []
base64 (a ∷ []) = base64_char (a / 4) ∷ base64_char (a % 4 * 16) ∷ 61 ∷ 61 ∷ []
base64 (a ∷ b ∷ []) =
    base64_char (a / 4) ∷ base64_char (a % 4 * 16 + b / 16) ∷ base64_char (b % 16 * 4) ∷ 61 ∷ []
base64 (a ∷ b ∷ c ∷ s) =
    base64_char (a / 4)
    ∷ base64_char (a % 4 * 16 + b / 16)
    ∷ base64_char (b % 16 * 4 + c / 64)
    ∷ base64_char (c % 64)
    ∷ base64 s

-- The credential that the gateway itself shows to a backend.
unfoldable pub basic : Text → Text → Text
unfolding base64 encode
basic user pw = codes "Basic " ++ base64 (encode (user ++ codes ":" ++ pw))

unfoldable pub host_header : Backend → Text
host_header b = b.host ++ codes ":" ++ decimal b.port

abbrev pub with_credentials : Option (Text × Text) → Dict Text → Dict Text
with_credentials none fwd = fwd
with_credentials (some (user, pw)) fwd = insert (codes "Authorization") (basic user pw) fwd

-- The client's headers that are passed on, each with the first value of its name.
abbrev pub or_empty : Option Text → Text
or_empty none = []
or_empty (some v) = v

unfoldable pub passed_on : Headers → Headers → Dict Text → Dict Text
unfolding lower
passed_on all [] fwd = fwd
passed_on all ((key, v) ∷ hs) fwd =
    passed_on all hs (if is_hop key then fwd else insert key (or_empty (header key all)) fwd)

unfoldable pub forward_headers : Backend → Headers → Dict Text
forward_headers b hs = with_credentials b.credentials (
    insert (codes "X-Forwarded-By") (codes "rebekah-gateway")
      (insert (codes "Host") (host_header b) (passed_on hs hs [])))

-- `self.path[len("/" + first):]` with its query, or `/`, with a slash in front.
abbrev rooted : Text → Text
rooted s = if starts_with s (codes "/") then s else codes "/" ++ s

unfoldable pub upstream_path : Text → Text → Text
upstream_path first path = rooted (drop (suc (length first)) path)

unfoldable pub call_of : Backend → Text → Request → List ℕ → Call
call_of b first r body = record {
  host = b.host;
  port = b.port;
  method = r.method;
  path = upstream_path first r.path;
  headers = forward_headers b r.headers;
  body = body;
}

-- `k.lower() not in HOP_BY_HOP and k.lower() != "content-length"`
abbrev pub is_relayed : Text × Text → Bool
is_relayed (k, v) = not (is_hop k) && not (text_eq (lower k) (codes "content-length"))

unfoldable pub relay : Request → Reply → Response
unfolding lower
relay r reply = respond r reply.status (select is_relayed reply.headers) reply.payload

-- The handler's own requests to a backend: `None` on any failure.
abbrev pub get_headers : Backend → Headers
get_headers b = elim b.credentials [
  | none ↦ (codes "Host", host_header b) ∷ []
  | some (user, pw) ↦ (codes "Host", host_header b) ∷ (codes "Authorization", basic user pw) ∷ []
]

abbrev or_none : Option Json → Json
or_none none = null
or_none (some v) = v

abbrev answered : (List ℕ → Option Json) → Option Reply → Json
answered loads none = null
answered loads (some reply) = if reply.status == 200 then or_none (loads reply.payload) else null

unfoldable pub backend_get_json :
    (List ℕ → Option Json) → (Call → Option Reply) → Dict Backend → Text → Text → Json
backend_get_json loads upstream backends name path = elim (lookup name backends) [
  | none ↦ null
  | some b ↦ answered loads (
      upstream record {
        host = b.host;
        port = b.port;
        method = codes "GET";
        path = path;
        headers = get_headers b;
        body = [];
      })
]

-- `fetch_kanban`
unfoldable pub fetch_kanban : (List ℕ → Option Json) → (Call → Option Reply) → Dict Backend → Json
fetch_kanban loads upstream backends =
    backend_get_json loads upstream backends (codes "weftmark") (codes "/v0/kanban")
