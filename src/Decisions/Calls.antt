-- ===== src/Decisions/Calls.antt =====
-- The calls by which nix/gateway.py reaches the loopback services: `internal_json`, `gate_rpc` and
-- `_nostoi_event`. A world answers each call from the history of the calls before it, so that any
-- service, and any failure of one, is covered.
use rebekah.Prelude.{
  ℕ, ◌*◌, Bool, true, false, not, Option, none, some, List, [], ◌∷◌, ◌++◌, ltb, leb, length,
  if◌then◌else◌,
}
use rebekah.Prelude.Text.{Text, codes, decimal, is_empty}
use rebekah.Prelude.Dict.{Dict, lookup, insert}
use rebekah.Prelude.Exec.{ok, err, value_error, runtime_error, Exec}
use rebekah.Json.{Json, null, str, as_dict, as_text, get}
use rebekah.Json.Dumps.{dumps_compact}

pub record Endpoint : Type 0 where
  pub host : Text
  pub port : ℕ

pub record HttpRequest : Type 0 where
  pub endpoint : Endpoint
  pub method : Text
  pub path : Text
  pub payload : Option Json
  pub headers : Dict Text

-- One JSON-RPC line for an MCP gate.
pub record GateRequest : Type 0 where
  pub gate : Endpoint
  pub method : Text
  pub params : Dict Json

pub record AuditEvent : Type 0 where
  pub kind : Text
  pub actor : Text
  pub subject : Text
  pub body : Json

-- A call that was made; of an append to the audit ledger, whether a receipt came back.
pub data Event : Type 0 where
  http : HttpRequest → Event
  gate : GateRequest → Event
  audit : AuditEvent → Bool → Event

-- The newest event stands first.
abbrev pub Trace : Type 0
Trace = List Event

-- The bytes of a reply: how many were read, and what `json.loads` makes of them.
pub record Raw : Type 0 where
  pub size : ℕ
  pub parsed : Option Json

-- What the services, the network and the `nostoi` program answer. `none` stands for each failure
-- that raises: no connection, a timeout, a refused header, an exit status other than 0.
pub record World : Type 0 where
  pub exchange : Trace → HttpRequest → Option (ℕ × Raw)
  pub ask_gate : Trace → GateRequest → Option Raw
  pub append : Trace → AuditEvent → Option Json
  pub sha256 : Text → Text

-- What the decisions read of `Config`.
pub record Config : Type 0 where
  pub internal : Dict Endpoint
  pub mcp_gates : Dict Endpoint
  pub mcp_gate_token : Text
  pub ephor_oversight_token : Text
  pub weftmark_write_token : Text

abbrev pub reply_limit : ℕ
reply_limit = 1024 * 1024

-- `json.loads(raw)` of a reply in bounds, and `None` for any other.
abbrev pub bounded : Raw → Json
bounded raw =
    if leb raw.size reply_limit then (elim raw.parsed [ none ↦ null | some v ↦ v ]) else null

abbrev with_bearer : Option Text → Dict Text → Dict Text
with_bearer none d = d
with_bearer (some token) d = insert (codes "Authorization") (codes "Bearer " ++ token) d

abbrev with_content_type : Option Json → Dict Text → Dict Text
with_content_type none d = d
with_content_type (some body) d = insert (codes "Content-Type") (codes "application/json") d

-- `d.update(other)`
abbrev pub update {ℓ} : {V : Type ℓ} → Dict V → Dict V → Dict V
update d [] = d
update d ((k, v) ∷ other) = update (insert k v d) other

module _ (cfg : Config) (w : World) where
  abbrev answered : Option (ℕ × Raw) → Option ℕ × Json
  answered none = (none, null)
  answered (some (status, raw)) = (some status, bounded raw)

  -- The request that `internal_json` makes of an endpoint.
  abbrev pub request_of :
      Endpoint → Text → Text → Option Json → Option Text → Dict Text → HttpRequest
  request_of endpoint method path body bearer headers =
      let host = endpoint.host ++ (58 ∷ decimal endpoint.port) in
      let send =
        update ((codes "Host", host) ∷ (codes "Accept", codes "application/json") ∷ []) headers in
      record {
        endpoint = endpoint;
        method = method;
        path = path;
        payload = body;
        headers = with_content_type body (with_bearer bearer send);
      }

  abbrev pub exchange_with :
      (Endpoint → HttpRequest) → Option Endpoint → Trace → (Option ℕ × Json) × Trace
  exchange_with request none t = ((none, null), t)
  exchange_with request (some endpoint) t =
      (answered (w.exchange t (request endpoint)), http (request endpoint) ∷ t)

  -- `internal_json`: the status, `None` where there was no reply, and the parsed reply.
  unfoldable pub internal_json :
      Text → Text → Text → Option Json → Option Text → Dict Text → Trace → (Option ℕ × Json) × Trace
  internal_json name method path body bearer headers t =
      exchange_with (λ endpoint. request_of endpoint method path body bearer headers)
        (lookup name cfg.internal) t

  abbrev gate_reply : Option Raw → Option (Dict Json)
  gate_reply none = none
  gate_reply (some raw) = as_dict (bounded raw)

  abbrev pub ask_with :
      (Endpoint → GateRequest) → Option Endpoint → Bool → Trace → Option (Dict Json) × Trace
  ask_with request (some endpoint) true t =
      (gate_reply (w.ask_gate t (request endpoint)), gate (request endpoint) ∷ t)
  ask_with request _ _ t = (none, t)

  abbrev pub gate_request : Text → Dict Json → Endpoint → GateRequest
  gate_request method params endpoint = record {
    gate = endpoint;
    method = method;
    params = insert (codes "token") (str cfg.mcp_gate_token) params;
  }

  -- `gate_rpc`: the reply where it is a JSON object, else `None`.
  unfoldable pub gate_rpc : Text → Text → Dict Json → Trace → Option (Dict Json) × Trace
  gate_rpc name method params t =
      ask_with (gate_request method params) (lookup name cfg.mcp_gates)
        (not (is_empty cfg.mcp_gate_token)) t

  abbrev pub digest_of : Option Json → Option Text
  digest_of none = none
  digest_of (some report) = elim (as_dict report) [
    | none ↦ none
    | some d ↦ as_text (get d (codes "digest"))
  ]

  abbrev pub write_audit : AuditEvent → Bool → Option Text → Exec Trace Text
  write_audit event true digest t = (err value_error, t)
  write_audit event false none t = (err runtime_error, audit event false ∷ t)
  write_audit event false (some digest) t = (ok digest, audit event true ∷ t)

  -- `_nostoi_event`, which yields the digest of the receipt. The tests' hook `nostoi_writer` is not
  -- set by `Config`.
  unfoldable pub nostoi_event : AuditEvent → Exec Trace Text
  nostoi_event event t =
      write_audit event (ltb 4096 (length (dumps_compact event.body)))
        (digest_of (w.append t event)) t
