-- ===== src/Decisions/Protocol.antt =====
-- The order of the calls that `apply_command` (nix/gateway.py) makes: look the hold up, put the intent
-- on record, decide, put the outcome on record.
use rebekah.Prelude.{
  ℕ, ◌≡◌, refl, Bool, true, false, Option, none, some, ◌∷◌, ◌++◌, inl, inr, Bool-cases, [], arith,
  ltb, length,
}
use rebekah.Prelude.Text.{Text, codes, is_encodable}
use rebekah.Prelude.Dict.{Dict}
use rebekah.Prelude.Exec.{Result, ok, err, Raised, Exec, attempt, continue, pure}
use rebekah.Json.{get, Json, object, str, dict_or_nil}
use rebekah.Json.Dumps.{dumps_compact}
use rebekah.Decisions.Calls.{
  Trace, Event, http, gate, audit, AuditEvent, World, Config, nostoi_event, write_audit, digest_of,
}
use rebekah.Decisions.Events.{
  Adds, same, AtMostOne, nothing, one, IsVerb, IsLookup, IsDecision, IsIntent, IsOutcome, Http,
  Asks, weaken, internal_json-AtMostOne, gate_rpc-AtMostOne,
}
use rebekah.Decisions.Lookups.{find_hold-Adds}
use rebekah.Decisions.Check.{
  reason, Kind, decide, defer, record_review, kind_name, command_id, params_of, check_header,
  check_review, check_request, check_decide, check_defer, check_escalate, Order,
}
use rebekah.Decisions.Reports.{text_or, Report}
use rebekah.Decisions.Audit.{
  decision_intent, encoded, decision_outcome, outcome_event, close, conclude, audited,
}
use rebekah.Decisions.Hold.{Surface, bridge, gate as mcp_gate, Lookup, held, missing, find_hold}
use rebekah.Decisions.Apply.{
  record_on, send_order, carry_out, check_order, with_order, if_pending, on_hold, with_request,
  decide_hold, with_change_set, review_change, by_kind, apply_addressed, apply_command, is_pending,
}

-- What a command with the id `cid` adds to a trace.
pub data Protocol (cid : Text) (t t' : Trace) : Type 0 where
  looked : Adds IsLookup t t' → Protocol cid t t'
  unaudited :
      (u : Trace) (a : AuditEvent)
      → Adds IsLookup t u
      → IsIntent cid a
      → t' ≡ audit a false ∷ u
      → Protocol cid t t'
  decided :
      (u v : Trace) (a : AuditEvent)
      → Adds IsLookup t u
      → IsIntent cid a
      → AtMostOne IsDecision (audit a true ∷ u) v
      → AtMostOne (IsOutcome cid) v t'
      → Protocol cid t t'

module _ (cfg : Config) (w : World) where
  write_audit-AtMostOne :
      (cid : Text) (event : AuditEvent) (oversized : Bool) (digest : Option Text) (t : Trace)
      → IsOutcome cid (audit event true)
      → AtMostOne (IsOutcome cid) t (write_audit cfg w event oversized digest t).1
  write_audit-AtMostOne cid event true digest t h = nothing refl
  write_audit-AtMostOne cid event false none t h = one (audit event false) h refl
  write_audit-AtMostOne cid event false (some d) t h = one (audit event true) h refl

  outcome_event-IsOutcome :
      (cid actor intent : Text) (report : Report) (ok : Bool)
      → report.ok ≡ ok
      → IsOutcome cid (audit (outcome_event cfg w cid actor intent report) true)
  outcome_event-IsOutcome cid actor intent report true e = (inl (ground arith), refl)
  outcome_event-IsOutcome cid actor intent report false e = (inr (ground arith), refl)

  decision_outcome-AtMostOne :
      (cid actor intent : Text) (report : Report) (t : Trace)
      → AtMostOne (IsOutcome cid) t (decision_outcome cfg w cid actor intent report t).1
  unfolding decision_outcome nostoi_event
  decision_outcome-AtMostOne cid actor intent report t =
      let event = outcome_event cfg w cid actor intent report in
      write_audit-AtMostOne cid event (ltb 4096 (length (dumps_compact event.body)))
        (digest_of cfg w (w.append t event)) t
        (outcome_event-IsOutcome cid actor intent report report.ok refl)

  close-AtMostOne :
      (cid actor intent : Text) (report : Result Raised Report) (t : Trace)
      → AtMostOne (IsOutcome cid) t (close cfg w cid actor intent report t).1
  close-AtMostOne cid actor intent (err e) t = nothing refl
  close-AtMostOne cid actor intent (ok report) t =
      decision_outcome-AtMostOne cid actor intent report t

  module _ (cid actor : Text) (t : Trace) (call : Exec Trace Report)
      (decides : (s : Trace) → AtMostOne IsDecision s (call s).1) where
    conclude-Protocol :
        (u : Trace) (event : AuditEvent) (oversized : Bool) (digest : Option Text)
        → IsIntent cid event
        → Adds IsLookup t u
        → Protocol cid t
            (conclude cfg w cid actor call
              (attempt (write_audit cfg w event oversized digest) u).0
              (attempt (write_audit cfg w event oversized digest) u).1).1
    conclude-Protocol u event true digest i a = looked a
    conclude-Protocol u event false none i a = unaudited u event a i refl
    conclude-Protocol u event false (some d) i a =
        let v = audit event true ∷ u in
        decided u (call v).1 event a i (decides v)
          (close-AtMostOne cid actor d (call v).0 (call v).1)

    audited-Protocol :
        (u : Trace) (text : Text) (kind : Kind) (details : Dict Json)
        → Adds IsLookup t u
        → Protocol cid t
            (audited cfg w cid actor
              (encoded cfg w text (decision_intent cfg w cid actor kind details))
              call
              u).1
    unfolding audited decision_intent nostoi_event
    audited-Protocol u text kind details a = elim (Bool-cases (is_encodable text)) [
      | inr lone ↦ rw lone (looked a)
      | inl sound ↦ rw sound (
          let event : AuditEvent = record {
            kind = codes "rebekah.decision.requested";
            actor = actor;
            subject = cid;
            body = object (
                (codes "command_id", str cid)
                ∷ (codes "operation", str (kind_name kind))
                ∷ details);
          } in
          conclude-Protocol u event (ltb 4096 (length (dumps_compact event.body)))
            (digest_of cfg w (w.append u event)) (refl, refl) a)
    ]

post-IsDecision : (e : Event) → Http (codes "POST") e → IsDecision e
post-IsDecision (http r) p = p
post-IsDecision (gate g) p = absurd p
post-IsDecision (audit a b) p = absurd p

verb-IsDecision :
    (verb : Text) → IsVerb verb → (e : Event) → Asks (codes "oversight." ++ verb) e → IsDecision e
verb-IsDecision verb v (http r) p = absurd p
verb-IsDecision verb v (gate g) p = (verb, v, p)
verb-IsDecision verb v (audit a b) p = absurd p

module _ (cfg : Config) (w : World) where
  check_order-IsVerb :
      (cid actor request_id rationale : Text) (params : Dict Json) (now_ms : ℕ) (deadline : Json)
      (kind : Kind) (order : Order)
      → check_order cfg w cid actor request_id rationale params now_ms deadline kind ≡ ok order
      → IsVerb order.verb
  unfolding check_order check_decide check_defer check_escalate
  check_order-IsVerb cid actor request_id rationale params now_ms deadline decide order e =
      inl (ground arith)
  check_order-IsVerb cid actor request_id rationale params now_ms deadline defer order e =
      inr (inl (ground arith))
  check_order-IsVerb cid actor request_id rationale params now_ms deadline _ order e =
      inr (inr (ground arith))

  send_order-AtMostOne :
      (cid : Text) (surface : Surface) (order : Order) (s : Trace)
      → IsVerb order.verb
      → AtMostOne IsDecision s (send_order cfg w cid surface order s).1
  unfolding send_order
  send_order-AtMostOne cid bridge order s v =
      weaken post-IsDecision (internal_json-AtMostOne cfg w _ _ _ _ _ _ s)
  send_order-AtMostOne cid (mcp_gate name) order s v =
      weaken (verb-IsDecision order.verb v) (gate_rpc-AtMostOne cfg w _ _ _ s)

  module _ (cid actor : Text) (t : Trace) where
    carry_out-Protocol :
        (kind : Kind) (request_id rationale : Text) (surface : Surface) (order : Order) (u : Trace)
        → IsVerb order.verb
        → Adds IsLookup t u
        → Protocol cid t (carry_out cfg w cid actor kind request_id rationale surface order u).1
    unfolding carry_out
    carry_out-Protocol kind request_id rationale surface order u v a =
        audited-Protocol cfg w cid actor t (send_order cfg w cid surface order)
          (λ s. send_order-AtMostOne cid surface order s v) u rationale kind _ a

    with_order-Protocol :
        (kind : Kind) (request_id rationale : Text) (surface : Surface) (r : Result Text Order)
        (u : Trace)
        → ((order : Order) → r ≡ ok order → IsVerb order.verb)
        → Adds IsLookup t u
        → Protocol cid t (with_order cfg w cid actor kind request_id rationale surface r u).1
    with_order-Protocol kind request_id rationale surface (err e) u v a = looked a
    with_order-Protocol kind request_id rationale surface (ok order) u v a =
        carry_out-Protocol kind request_id rationale surface order u (v order refl) a

    if_pending-Protocol :
        (d : Dict Json) (b : Bool) (go_on : Exec Trace Report) (u : Trace)
        → Adds IsLookup t u
        → Protocol cid t (go_on u).1
        → Protocol cid t (if_pending cfg w cid d b go_on u).1
    if_pending-Protocol d true go_on u a h = h
    if_pending-Protocol d false go_on u a h = looked a

    on_hold-Protocol :
        (kind : Kind) (params : Dict Json) (request_id rationale : Text) (now_ms : ℕ)
        (lookup : Result Raised Lookup) (u : Trace)
        → Adds IsLookup t u
        → Protocol cid t
            (continue lookup (on_hold cfg w cid actor kind params request_id rationale now_ms) u).1
    unfolding on_hold
    on_hold-Protocol kind params request_id rationale now_ms (err e) u a = looked a
    on_hold-Protocol kind params request_id rationale now_ms (ok (missing b)) u a = looked a
    on_hold-Protocol kind params request_id rationale now_ms (ok (held d surface deadline)) u a =
        if_pending-Protocol d (is_pending cfg w d)
          (with_order cfg w cid actor kind request_id rationale surface
            (check_order cfg w cid actor request_id rationale params now_ms deadline kind))
          u a
          (with_order-Protocol kind request_id rationale surface
            (check_order cfg w cid actor request_id rationale params now_ms deadline kind) u
            (check_order-IsVerb cid actor request_id rationale params now_ms deadline kind) a)

    with_request-Protocol :
        (kind : Kind) (params : Dict Json) (now_ms : ℕ) (r : Result Text (Text × Text))
        → Protocol cid t (with_request cfg w cid actor kind params now_ms r t).1
    with_request-Protocol kind params now_ms (err e) = looked same
    with_request-Protocol kind params now_ms (ok (request_id, rationale)) =
        on_hold-Protocol kind params request_id rationale now_ms (find_hold cfg w request_id t).0
          (find_hold cfg w request_id t).1 (find_hold-Adds cfg w request_id t)

    with_change_set-Protocol :
        (params : Dict Json) (r : Result Text Text)
        → Protocol cid t (with_change_set cfg w cid actor params r t).1
    unfolding record_on
    with_change_set-Protocol params (err e) = looked same
    with_change_set-Protocol params (ok cs) =
        audited-Protocol cfg w cid actor t _
          (λ s. weaken post-IsDecision (internal_json-AtMostOne cfg w _ _ _ _ _ _ s)) t
          (text_or (reason (get params (codes "request_changes"))) []) record_review _ same

  by_kind-Protocol :
      (cid : Text) (t : Trace) (params : Dict Json) (now_ms : ℕ) (r : Result Text (Kind × Text))
      → Protocol cid t (by_kind cfg w cid params now_ms r t).1
  unfolding review_change decide_hold
  by_kind-Protocol cid t params now_ms (err e) = looked same
  by_kind-Protocol cid t params now_ms (ok (record_review, actor)) =
      with_change_set-Protocol cid actor t params (check_review cfg.weftmark_write_token params)
  by_kind-Protocol cid t params now_ms (ok (kind, actor)) =
      with_request-Protocol cid actor t kind params now_ms
        (check_request cfg.ephor_oversight_token params)

  Protocol-pure :
      (cid : Text) (t u : Trace) (r : Result Raised Report)
      → Protocol cid t u
      → Protocol cid t (continue r (λ report. pure (some report)) u).1
  Protocol-pure cid t u (err e) p = p
  Protocol-pure cid t u (ok report) p = p

  -- Whatever the services answer, a command makes lookups, then at most one append that announces
  -- it under its id, and only where that append was acknowledged at most one call that decides,
  -- and after that call at most one append that records the outcome.
  pub apply_command-Protocol :
      (command : Json) (now_ms : ℕ) (t : Trace) (cid : Text)
      → command_id command ≡ some cid
      → Protocol cid t (apply_command cfg w command now_ms t).1
  unfolding apply_command apply_addressed
  apply_command-Protocol command now_ms t cid e = rw e (
      Protocol-pure cid t _ _ (
        by_kind-Protocol cid t (params_of (dict_or_nil (some command))) now_ms
          (check_header (dict_or_nil (some command)))))
