-- ===== src/Http/Framing.antt =====
-- The frame of every response that `_handle` of nix/gateway.py writes.
use rebekah.Prelude.{ℕ, ◌≡◌, true, List, [], ◌∷◌, ◌++◌, if◌then◌else◌, All, length}
use rebekah.Prelude.Text.{Text, codes, decimal}
use rebekah.Prelude.Exec.{Result, ok, err, Raised, Exec}
use rebekah.Json.{Json}
use rebekah.Http.Message.{Headers, Request, Response, is_head}
use rebekah.Http.Upstream.{is_relayed}

-- The gateway's mark, headers that are neither hop-by-hop nor a length, one length, which counts the
-- payload, and the payload, unless the request is a HEAD.
pub record IsFramed (r : Request) (response : Response) : Type 0 where
  pub between : Headers
  pub payload : List ℕ
  pub clean : All (λ h. is_relayed h ≡ true) between
  pub headed :
      response.headers
      ≡ (codes "X-Rebekah-Gateway", codes "1")
        ∷ (between ++ (codes "Content-Length", decimal (length payload)) ∷ [])
  pub sent : response.body ≡ (if is_head r then [] else payload)

-- A run that raises, or answers with a framed response.
abbrev Frames : Request → Result Raised Response → Type 0
Frames r (ok response) = IsFramed r response
Frames r (err e) = Unit
