-- ===== src/Decisions/Events.antt =====
-- Kinds of calls in a trace of nix/gateway.py's decisions, and what one call adds to a trace.
use rebekah.Prelude.{◌≡◌, refl, Bool, true, Option, none, some, ◌∷◌, ◌++◌, ◌⊎◌, not}
use rebekah.Prelude.Text.{Text, codes, is_empty}
use rebekah.Prelude.Dict.{Dict, lookup}
use rebekah.Json.{Json}
use rebekah.Decisions.Calls.{
  Trace, Event, http, gate, audit, AuditEvent, HttpRequest, GateRequest, World, Config,
  internal_json, gate_rpc, Endpoint, request_of, exchange_with, ask_with, gate_request,
}

-- Any number of events of one kind, on top of a trace.
pub data Adds (P : Event → Type 0) (t : Trace) : Trace → Type 0 where
  same : Adds P t t
  more : {u : Trace} (e : Event) → Adds P t u → P e → Adds P t (e ∷ u)

-- At most one event.
pub data AtMostOne (P : Event → Type 0) (t u : Trace) : Type 0 where
  nothing : u ≡ t → AtMostOne P t u
  one : (e : Event) → P e → u ≡ e ∷ t → AtMostOne P t u

abbrev pub IsVerb : Text → Type 0
IsVerb v = (v ≡ codes "decide") ⊎ (v ≡ codes "defer") ⊎ (v ≡ codes "escalate")

-- A call that changes nothing: a GET, or a list of a gate's holds.
abbrev pub IsLookup : Event → Type 0
IsLookup (http r) = r.method ≡ codes "GET"
IsLookup (gate g) = g.method ≡ codes "oversight.list"
IsLookup (audit a found) = ⊥

-- A call that decides.
abbrev pub IsDecision : Event → Type 0
IsDecision (http r) = r.method ≡ codes "POST"
IsDecision (gate g) = (v : Text) × IsVerb v × (g.method ≡ codes "oversight." ++ v)
IsDecision (audit a found) = ⊥

-- The audit event that announces a command.
abbrev pub IsIntent : Text → AuditEvent → Type 0
IsIntent cid a = (a.kind ≡ codes "rebekah.decision.requested") × (a.subject ≡ cid)

abbrev pub IsOutcome : Text → Event → Type 0
IsOutcome cid (audit a found) =
    ((a.kind ≡ codes "rebekah.decision.completed") ⊎ (a.kind ≡ codes "rebekah.decision.failed"))
    × (a.subject ≡ cid)
IsOutcome cid _ = ⊥

abbrev pub Http : Text → Event → Type 0
Http method (http r) = r.method ≡ method
Http method _ = ⊥

abbrev pub Asks : Text → Event → Type 0
Asks method (gate g) = g.method ≡ method
Asks method _ = ⊥

pub weaken :
    {P Q : Event → Type 0} {t u : Trace}
    → ((e : Event) → P e → Q e)
    → AtMostOne P t u
    → AtMostOne Q t u
weaken f (nothing e) = nothing e
weaken f (one e p q) = one e (f e p) q

module _ (cfg : Config) (w : World) where
  exchange_with-AtMostOne :
      (method : Text) (request : Endpoint → HttpRequest) (o : Option Endpoint) (t : Trace)
      → ((e : Endpoint) → (request e).method ≡ method)
      → AtMostOne (Http method) t (exchange_with cfg w request o t).1
  exchange_with-AtMostOne method request none t h = nothing refl
  exchange_with-AtMostOne method request (some e) t h = one (http (request e)) (h e) refl

  pub internal_json-AtMostOne :
      (name method path : Text) (body : Option Json) (bearer : Option Text) (headers : Dict Text)
      (t : Trace)
      → AtMostOne (Http method) t (internal_json cfg w name method path body bearer headers t).1
  unfolding internal_json
  internal_json-AtMostOne name method path body bearer headers t =
      exchange_with-AtMostOne method
        (λ endpoint. request_of cfg w endpoint method path body bearer headers)
        (lookup name cfg.internal) t (λ e. refl)

  ask_with-AtMostOne :
      (method : Text) (request : Endpoint → GateRequest) (o : Option Endpoint) (b : Bool)
      (t : Trace)
      → ((e : Endpoint) → (request e).method ≡ method)
      → AtMostOne (Asks method) t (ask_with cfg w request o b t).1
  ask_with-AtMostOne method request (some e) true t h = one (gate (request e)) (h e) refl
  ask_with-AtMostOne method request _ _ t h = nothing refl

  pub gate_rpc-AtMostOne :
      (name method : Text) (params : Dict Json) (t : Trace)
      → AtMostOne (Asks method) t (gate_rpc cfg w name method params t).1
  unfolding gate_rpc
  gate_rpc-AtMostOne name method params t =
      ask_with-AtMostOne method (gate_request cfg w method params) (lookup name cfg.mcp_gates)
        (not (is_empty cfg.mcp_gate_token)) t (λ e. refl)
