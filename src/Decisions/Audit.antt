-- ===== src/Decisions/Audit.antt =====
-- The audit trail of a decision in nix/gateway.py: `_decision_intent`, `_decision_outcome`, and the
-- order in which `apply_command` puts them round the call.
use rebekah.Prelude.{false, Option, none, some, [], ◌∷◌, if◌then◌else◌}
use rebekah.Prelude.Text.{Text, codes, is_encodable}
use rebekah.Prelude.Dict.{Dict}
use rebekah.Prelude.Exec.{Result, ok, err, Raised, Exec, attempt, raise, value_error}
use rebekah.Json.{Json, boolean, str, object}
use rebekah.Decisions.Calls.{Trace, World, Config, AuditEvent, nostoi_event}
use rebekah.Decisions.Check.{Kind, kind_name}
use rebekah.Decisions.Reports.{Report, refusal, text_or, flat}

module _ (cfg : Config) (w : World) where
  -- What an intent with the hash of a text comes to: `text.encode("utf-8")` raises on a lone surrogate.
  abbrev pub encoded : Text → Exec Trace Text → Exec Trace Text
  encoded text intend = if is_encodable text then intend else raise value_error

  -- `_decision_intent`
  unfoldable pub decision_intent : Text → Text → Kind → Dict Json → Exec Trace Text
  decision_intent cid actor kind details = nostoi_event cfg w (record {
    kind = codes "rebekah.decision.requested";
    actor = actor;
    subject = cid;
    body =
        object
          ((codes "command_id", str cid) ∷ (codes "operation", str (kind_name kind)) ∷ details);
  })

  abbrev pub outcome_event : Text → Text → Text → Report → AuditEvent
  outcome_event cid actor intent report = record {
    kind =
        if report.ok then codes "rebekah.decision.completed" else codes "rebekah.decision.failed";
    actor = actor;
    subject = cid;
    body = object (
        (codes "intent_digest", str intent)
        ∷ (codes "ok", boolean report.ok)
        ∷ (codes "outcome", str (text_or (flat report.outcome) (codes "unknown")))
        ∷ (codes "error", str (text_or report.error []))
        ∷ []);
  }

  abbrev pub unless_lost : Report → Result Raised Text → Report
  unless_lost report (ok digest) = report
  unless_lost report (err e) = record report {
    ok = false;
    outcome = some (some (codes "unknown"));
    error = some (codes "audit_outcome_unavailable");
  }

  -- `_decision_outcome`: a result that cannot be audited is reported as unknown.
  unfoldable pub decision_outcome : Text → Text → Text → Report → Trace → Report × Trace
  decision_outcome cid actor intent report t =
      let (r, u) = nostoi_event cfg w (outcome_event cid actor intent report) t in
      (unless_lost report r, u)

  abbrev pub close : Text → Text → Text → Result Raised Report → Exec Trace Report
  close cid actor intent (err e) t = (err e, t)
  close cid actor intent (ok report) t =
      let (r, u) = decision_outcome cid actor intent report t in (ok r, u)

  abbrev pub conclude : Text → Text → Exec Trace Report → Option Text → Exec Trace Report
  conclude cid actor call none t = (ok (refusal cid (codes "audit_unavailable")), t)
  conclude cid actor call (some intent) t =
      let (report, u) = call t in close cid actor intent report u

  -- An intent that is on record, then the call, then the outcome; with no intent there is no call.
  unfoldable pub audited : Text → Text → Exec Trace Text → Exec Trace Report → Exec Trace Report
  audited cid actor intend call t =
      let (intent, u) = attempt intend t in conclude cid actor call intent u
