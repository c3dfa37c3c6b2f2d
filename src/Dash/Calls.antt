-- ===== src/Dash/Calls.antt =====
-- `DashPusher._call` of nix/gateway.py: one request to Dash over a fresh connection.
use rebekah.Prelude.{ℕ, Option, none, some, List, [], ◌∷◌, ◌++◌, length, take, if◌then◌else◌, leb}
use rebekah.Prelude.Int.{ℤ}
use rebekah.Prelude.Text.{Text, codes}
use rebekah.Prelude.Dict.{Dict}
use rebekah.Prelude.Exec.{Result, ok, err, Raised}
use rebekah.Json.{Json, as_dict}
use rebekah.Json.Dumps.{dumps_unsorted}
use rebekah.Http.Message.{Headers, int_of}
use rebekah.Dash.Pusher.{Settings}
use rebekah.Prelude.{◌+◌}

-- What Dash sends: at most `DASH_MAX_RESPONSE` + 1 bytes of its body are read.
pub record Received : Type 0 where
  pub status : ℕ
  pub body : List ℕ
  pub retry_after : Option Text

-- The network, where `none` stands for an `OSError` or an `HTTPException`, and `json.loads`.
pub record Network : Type 0 where
  pub send : Text → Text → Headers → Option Text → Option Received
  pub loads : List ℕ → Option Json

pub record Answer : Type 0 where
  pub status : ℕ
  pub parsed : Option (Dict Json)
  pub retry : Option ℤ

abbrev pub max_response : ℕ
max_response = 65536

unfoldable pub call_headers : Text → Option Json → Headers
call_headers key body =
    (codes "Authorization", codes "Bearer " ++ key)
    ∷ (codes "Accept", codes "application/json")
    ∷ (codes "User-Agent", codes "rebekah-gateway/dash-push")
    ∷ elim body [ none ↦ [] | some v ↦ (codes "Content-Type", codes "application/json") ∷ [] ]

abbrev payload_of : Option Json → Option Text
payload_of none = none
payload_of (some v) = some (dumps_unsorted v)

abbrev object_of : Option Json → Option (Dict Json)
object_of none = none
object_of (some v) = as_dict v

-- The JSON of a body that is not too long.
unfoldable pub data_of : Network → List ℕ → Option (Dict Json)
data_of n raw = if leb (length raw) max_response then object_of (n.loads raw) else none

abbrev integer_of : Result Raised ℤ → Option ℤ
integer_of (ok n) = some n
integer_of (err e) = none

unfoldable pub retry_of : Option Text → Option ℤ
retry_of none = none
retry_of (some s) = integer_of (int_of s)

abbrev answer_of : Network → Option Received → Option Answer
answer_of n none = none
answer_of n (some r) = some record {
  status = r.status;
  parsed = data_of n (take (max_response + 1) r.body);
  retry = retry_of r.retry_after;
}

unfoldable pub call : Settings → Network → Text → Text → Option Json → Option Answer
call cfg n method path body =
    answer_of n
      (n.send method (cfg.prefix ++ path) (call_headers cfg.dash_key body) (payload_of body))
