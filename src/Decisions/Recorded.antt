-- ===== src/Decisions/Recorded.antt =====
-- A success that `apply_command` (nix/gateway.py) reports to Dash is on record in the audit ledger.
use rebekah.Prelude.{ℕ, ◌≡◌, refl, Bool, true, false, Option, none, some, ◌∷◌, arith, ltb, length}
use rebekah.Prelude.Text.{Text, codes}
use rebekah.Prelude.Dict.{Dict}
use rebekah.Prelude.Exec.{Result, ok, err, Raised, Exec, attempt, continue, pure}
use rebekah.Json.{Json, dict_or_nil}
use rebekah.Json.Dumps.{dumps_compact}
use rebekah.Decisions.Calls.{
  Trace, audit, AuditEvent, World, Config, nostoi_event, write_audit, digest_of,
}
use rebekah.Decisions.Check.{
  Kind, record_review, command_id, params_of, check_header, check_review, check_request, Order,
}
use rebekah.Decisions.Reports.{Report}
use rebekah.Decisions.Audit.{decision_outcome, outcome_event, unless_lost, close, conclude, audited}
use rebekah.Decisions.Hold.{Surface, Lookup, held, missing, find_hold}
use rebekah.Decisions.Apply.{
  record_on, carry_out, check_order, with_order, if_pending, on_hold, with_request, decide_hold,
  with_change_set, review_change, by_kind, apply_addressed, apply_command, is_pending,
}

-- A report of success comes with an acknowledged audit event that completes the command, the
-- newest event of the trace.
abbrev Recorded : Text → Result Raised Report × Trace → Type 0
Recorded cid (res, t) =
    (report : Report)
    → res ≡ ok report
    → report.ok ≡ true
    → (a : AuditEvent) × (u : Trace) × (t ≡ audit a true ∷ u)
      × (a.kind ≡ codes "rebekah.decision.completed")
      × (a.subject ≡ cid)

refused : (cid : Text) (r : Report) (t : Trace) → r.ok ≡ false → Recorded cid (ok r, t)
refused cid r t e report er good = absurd (ground arith)

module _ (cfg : Config) (w : World) where
  close-Recorded :
      (cid actor intent : Text) (r : Report) (oversized : Bool) (digest : Option Text) (t : Trace)
      → let event = outcome_event cfg w cid actor intent r in
        let written = write_audit cfg w event oversized digest t in
        Recorded cid (ok (unless_lost cfg w r written.0), written.1)
  close-Recorded cid actor intent r true digest t = refused cid _ t refl
  close-Recorded cid actor intent r false none t = refused cid _ _ refl
  close-Recorded cid actor intent r false (some d) t =
      λ report er good. (outcome_event cfg w cid actor intent r, t, refl, ground arith, refl)

  concluded :
      (cid actor intent : Text) (r : Result Raised Report) (t : Trace)
      → Recorded cid (close cfg w cid actor intent r t)
  unfolding decision_outcome nostoi_event
  concluded cid actor intent (err e) t = λ report er good. absurd (ground arith)
  concluded cid actor intent (ok r) t =
      let event = outcome_event cfg w cid actor intent r in
      close-Recorded cid actor intent r (ltb 4096 (length (dumps_compact event.body)))
        (digest_of cfg w (w.append t event)) t

  conclude-Recorded :
      (cid actor : Text) (call : Exec Trace Report) (intent : Option Text) (t : Trace)
      → Recorded cid (conclude cfg w cid actor call intent t)
  conclude-Recorded cid actor call none t = refused cid _ t refl
  conclude-Recorded cid actor call (some d) t = concluded cid actor d (call t).0 (call t).1

  audited-Recorded :
      (cid actor : Text) (intend : Exec Trace Text) (call : Exec Trace Report) (t : Trace)
      → Recorded cid (audited cfg w cid actor intend call t)
  unfolding audited
  audited-Recorded cid actor intend call t =
      conclude-Recorded cid actor call (attempt intend t).0 (attempt intend t).1

  with_order-Recorded :
      (cid actor : Text) (kind : Kind) (request_id rationale : Text) (surface : Surface)
      (r : Result Text Order) (t : Trace)
      → Recorded cid (with_order cfg w cid actor kind request_id rationale surface r t)
  unfolding carry_out
  with_order-Recorded cid actor kind request_id rationale surface (err e) t = refused cid _ t refl
  with_order-Recorded cid actor kind request_id rationale surface (ok order) t =
      audited-Recorded cid actor _ _ t

  if_pending-Recorded :
      (cid : Text) (d : Dict Json) (b : Bool) (go_on : Exec Trace Report) (t : Trace)
      → Recorded cid (go_on t)
      → Recorded cid (if_pending cfg w cid d b go_on t)
  if_pending-Recorded cid d true go_on t h = h
  if_pending-Recorded cid d false go_on t h = refused cid _ t refl

  on_hold-Recorded :
      (cid actor : Text) (kind : Kind) (params : Dict Json) (request_id rationale : Text)
      (now_ms : ℕ) (lookup : Result Raised Lookup) (t : Trace)
      → Recorded cid
          (continue lookup (on_hold cfg w cid actor kind params request_id rationale now_ms) t)
  unfolding on_hold
  on_hold-Recorded cid actor kind params request_id rationale now_ms (err e) t =
      λ report er good. absurd (ground arith)
  on_hold-Recorded cid actor kind params request_id rationale now_ms (ok (missing b)) t =
      refused cid _ t refl
  on_hold-Recorded cid actor kind params request_id rationale now_ms (ok (held d surface deadline))
        t =
      if_pending-Recorded cid d (is_pending cfg w d)
        (with_order cfg w cid actor kind request_id rationale surface
          (check_order cfg w cid actor request_id rationale params now_ms deadline kind))
        t
        (with_order-Recorded cid actor kind request_id rationale surface
          (check_order cfg w cid actor request_id rationale params now_ms deadline kind) t)

  with_request-Recorded :
      (cid actor : Text) (kind : Kind) (params : Dict Json) (now_ms : ℕ)
      (r : Result Text (Text × Text)) (t : Trace)
      → Recorded cid (with_request cfg w cid actor kind params now_ms r t)
  with_request-Recorded cid actor kind params now_ms (err e) t = refused cid _ t refl
  with_request-Recorded cid actor kind params now_ms (ok (request_id, rationale)) t =
      on_hold-Recorded cid actor kind params request_id rationale now_ms
        (find_hold cfg w request_id t).0 (find_hold cfg w request_id t).1

  with_change_set-Recorded :
      (cid actor : Text) (params : Dict Json) (r : Result Text Text) (t : Trace)
      → Recorded cid (with_change_set cfg w cid actor params r t)
  unfolding record_on
  with_change_set-Recorded cid actor params (err e) t = refused cid _ t refl
  with_change_set-Recorded cid actor params (ok cs) t = audited-Recorded cid actor _ _ t

  by_kind-Recorded :
      (cid : Text) (params : Dict Json) (now_ms : ℕ) (r : Result Text (Kind × Text)) (t : Trace)
      → Recorded cid (by_kind cfg w cid params now_ms r t)
  unfolding review_change decide_hold
  by_kind-Recorded cid params now_ms (err e) t = refused cid _ t refl
  by_kind-Recorded cid params now_ms (ok (record_review, actor)) t =
      with_change_set-Recorded cid actor params (check_review cfg.weftmark_write_token params) t
  by_kind-Recorded cid params now_ms (ok (kind, actor)) t =
      with_request-Recorded cid actor kind params now_ms
        (check_request cfg.ephor_oversight_token params) t

  reported-Recorded :
      (cid : Text) (r : Result Raised Report) (t : Trace) (report : Report)
      → Recorded cid (r, t)
      → (continue r (λ x. pure (some x)) t).0 ≡ ok (some report)
      → report.ok ≡ true
      → (a : AuditEvent) × (u : Trace) × ((continue r (λ x. pure (some x)) t).1 ≡ audit a true ∷ u)
        × (a.kind ≡ codes "rebekah.decision.completed")
        × (a.subject ≡ cid)
  reported-Recorded cid (err e) t report h er good = absurd (ground arith)
  reported-Recorded cid (ok r) t report h er good = h report (ground arith) good

  -- Where a command is reported as done, the newest event of the trace is an append of that
  -- command's completion under its id, and the ledger acknowledged it.
  pub apply_command_recorded :
      (command : Json) (now_ms : ℕ) (t : Trace) (cid : Text) (report : Report)
      → command_id command ≡ some cid
      → (apply_command cfg w command now_ms t).0 ≡ ok (some report)
      → report.ok ≡ true
      → (a : AuditEvent) × (u : Trace) × ((apply_command cfg w command now_ms t).1
          ≡ audit a true ∷ u)
        × (a.kind ≡ codes "rebekah.decision.completed")
        × (a.subject ≡ cid)
  unfolding apply_command apply_addressed
  apply_command_recorded command now_ms t cid report e er good =
      let d = dict_or_nil (some command) in
      let done = by_kind cfg w cid (params_of d) now_ms (check_header d) t in
      rw e (
        reported-Recorded cid done.0 done.1 report
          (by_kind-Recorded cid (params_of d) now_ms (check_header d) t) (rw e at er) good)
