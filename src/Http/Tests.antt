-- ===== src/Http/Tests.antt =====
-- The handler against a small machine with one backend, and its theorems at its requests.
use rebekah.Prelude.{ℕ, ◌≡◌, refl, true, none, some, List, [], ◌∷◌, ◌++◌, if◌then◌else◌}
use rebekah.Prelude.Int.{pos}
use rebekah.Prelude.Text.{Text, codes, text_eq}
use rebekah.Prelude.Dict.{lookup}
use rebekah.Prelude.Exec.{ok, err, type_error}
use rebekah.Json.{null, str}
use rebekah.Auth.Principal.{principal, bearer}
use rebekah.Http.Message.{Request, Response, header}
use rebekah.Http.Upstream.{Backend, forward_headers}
use rebekah.Http.Pages.{Files}
use rebekah.Http.Handler.{Config, Machine, Private, Server, handle}
use rebekah.Http.Secrecy.{handle_private}
use rebekah.Http.Passing.{expected, lookup-forward_headers}

abbrev files : Files
files = record {
  realpath = λ p. p;
  read = λ p. if text_eq p (codes "/ui/a.js") then some (60 ∷ []) else none;
  guess_type = λ p. none;
}

abbrev machine : Machine
machine = record {
  now = 100;
  iso_now = codes "2025-01-01T00:00:00Z";
  fresh = codes "t";
  hashes = record { scrypt = λ p s. p ++ s; sha256 = λ s. s };
  loads = λ s. none;
  display = λ v. [];
  unquote = λ s. s;
  files = files;
}

abbrev weftmark : Backend
weftmark = record { host = codes "h"; port = 80; credentials = some (codes "u", codes "p") }

abbrev config : Config
config = record {
  ui_enabled = true;
  ui_dir = codes "/ui";
  backends = (codes "weftmark", weftmark) ∷ [];
  max_body = pos 4;
}

-- Two sites that differ in all that is private.
abbrev site : Private
site = record {
  system = λ a. ok null;
  oversight = ok null;
  daily_agenda = ok null;
  frog_kanban = ok null;
  change_requests = ok null;
  upstream = λ c. some record {
    status = 200;
    headers = (codes "Connection", codes "close") ∷ (codes "Etag", codes "1") ∷ [];
    payload = 111 ∷ 107 ∷ [];
  };
}

abbrev other_site : Private
other_site = record {
  system = λ a. err type_error;
  oversight = ok (str (codes "secret"));
  daily_agenda = err type_error;
  frog_kanban = err type_error;
  change_requests = err type_error;
  upstream = λ c. none;
}

abbrev server : Server
server = record { auth = record { token = codes "s3"; passwords = none; oidc = none }; calls = [] }

abbrev request : Text → Text → List (Text × Text) → List ℕ → Request
request method path headers stream = record {
  method = method;
  path = path;
  headers = headers;
  stream = stream;
}

abbrev anonymous : Request
anonymous = request (codes "GET") (codes "/weftmark/v0/kanban") [] []

abbrev posted : Request
posted =
    request (codes "POST") (codes "/weftmark/v0/x?y=1")
      ((codes "authorization", codes "Bearer s3")
        ∷ (codes "Content-Length", codes "2")
        ∷ (codes "Accept", codes "*/*")
        ∷ [])
      (97 ∷ 98 ∷ 99 ∷ [])

handle_private_example :
    handle machine config anonymous site server ≡ handle machine config anonymous other_site server
unfolding principal header bearer
handle_private_example = handle_private machine config anonymous server site other_site refl

lookup-forward_headers_example :
    lookup (codes "authorization") (forward_headers weftmark posted.headers)
    ≡ expected weftmark posted.headers (codes "authorization")
lookup-forward_headers_example =
    lookup-forward_headers weftmark posted.headers (codes "authorization")

abbrev script : Request
script = request (codes "GET") (codes "/ui/a.js") [] []

abbrev relayed : Response
relayed = record {
  status = 200;
  headers =
      (codes "X-Rebekah-Gateway", codes "1")
      ∷ (codes "Etag", codes "1")
      ∷ (codes "Content-Length", codes "2")
      ∷ [];
  body = 111 ∷ 107 ∷ [];
}
