-- ===== src/Decisions/Apply.antt =====
-- `apply_command` of nix/gateway.py: one decision from Dash, looked up, audited, sent to the service
-- that holds it, and reported.
use rebekah.Prelude.{ℕ, Bool, true, false, Option, none, some, [], ◌∷◌, ◌++◌, length, if◌then◌else◌}
use rebekah.Prelude.Int.{pos}
use rebekah.Prelude.Text.{Text, codes, text_eq}
use rebekah.Prelude.Sort.{quote}
use rebekah.Prelude.Dict.{Dict, insert}
use rebekah.Prelude.Exec.{Result, ok, err, Exec, pure, ◌>>=◌}
use rebekah.Json.{Json, int, str, object, get, dict_or_nil}
use rebekah.Json.Dumps.{text_of}
use rebekah.Decisions.Calls.{Trace, World, Config, internal_json, gate_rpc}
use rebekah.Decisions.Check.{
  Kind, decide, defer, record_review, command_id, reason, params_of, check_header, check_review,
  check_request, check_decide, check_defer, check_escalate, Order, Verdict, approved, denied,
  verdict_name,
}
use rebekah.Decisions.Reports.{Report, refusal, text_or, review_report, bridge_report, gate_report}
use rebekah.Decisions.Audit.{decision_intent, encoded, audited}
use rebekah.Decisions.Hold.{Surface, bridge, gate, Lookup, held, missing, find_hold}

abbrev verdict_text : Option Verdict → Text
verdict_text none = []
verdict_text (some v) = verdict_name v

-- The `details` of the intent to decide on a hold.
abbrev pub intent_details : World → Text → Text → Order → Dict Json
intent_details w request_id rationale order =
    (codes "request_id", str request_id)
    ∷ (codes "decision", str (verdict_text order.verdict))
    ∷ (codes "rationale_sha256", str (w.sha256 rationale))
    ∷ (codes "rationale_chars", int (pos (length rationale)))
    ∷ (codes "target_queue", str order.target_queue)
    ∷ (codes "defer_ms", int (pos order.defer_ms))
    ∷ []

module _ (cfg : Config) (w : World) where
  abbrev pub idempotency : Text → Dict Text
  idempotency cid = (codes "Idempotency-Key", codes "dash-" ++ cid) ∷ []

  abbrev with_changes : Option Text → Dict Json → Dict Json
  with_changes none body = body
  with_changes (some changes) body = insert (codes "request_changes") (str changes) body

  -- The branch of `review.record` past its checks.
  unfoldable pub record_on : Text → Text → Dict Json → Text → Exec Trace Report
  record_on cid actor params cs =
      let changes = reason (get params (codes "request_changes")) in
      let body =
        with_changes changes
          ((codes "review_id", str (codes "dash-" ++ cid)) ∷ (codes "author_id", str actor) ∷ []) in
      let details =
        (codes "change_set_id", str cs)
        ∷ (codes "request_changes_sha256", str (w.sha256 (text_or changes [])))
        ∷ [] in
      audited cfg w cid actor
        (encoded cfg w (text_or changes []) (decision_intent cfg w cid actor record_review details))
        λ t.
          let (reply, u) =
            internal_json cfg w (codes "weftmark") (codes "POST")
              (codes "/v0/control/changes/" ++ (quote cs ++ codes "/reviews")) (some (object body))
              (some cfg.weftmark_write_token) (idempotency cid) t in
          (review_report cid reply.0 reply.1, u)

  -- agent-proxy spells the verdicts its own way.
  abbrev gate_body : Order → Dict Json
  gate_body order = elim order.verdict [
    | none ↦ order.body
    | some approved ↦ insert (codes "decision") (str (codes "approve")) order.body
    | some denied ↦ insert (codes "decision") (str (codes "deny")) order.body
  ]

  unfoldable pub send_order : Text → Surface → Order → Exec Trace Report
  send_order cid (gate name) order t =
      let (reply, u) = gate_rpc cfg w name (codes "oversight." ++ order.verb) (gate_body order) t in
      (gate_report cid order.verdict reply, u)
  send_order cid bridge order t =
      let (reply, u) =
        internal_json cfg w (codes "ephor") (codes "POST") (codes "/oversight/" ++ order.verb)
          (some (object order.body)) (some cfg.ephor_oversight_token) (idempotency cid) t in
      (bridge_report cid order.verdict reply.0 reply.1, u)

  -- Past the checks of the kind: intent, call, outcome.
  unfoldable pub carry_out : Text → Text → Kind → Text → Text → Surface → Order → Exec Trace Report
  carry_out cid actor kind request_id rationale surface order =
      audited cfg w cid actor
        (encoded cfg w rationale
          (decision_intent cfg w cid actor kind (intent_details w request_id rationale order)))
        (send_order cid surface order)

  -- The checks that depend on the kind.
  unfoldable pub check_order :
      Text → Text → Text → Text → Dict Json → ℕ → Json → Kind → Result Text Order
  check_order cid actor request_id rationale params now_ms deadline decide =
      check_decide cid actor request_id rationale params now_ms deadline
  check_order cid actor request_id rationale params now_ms deadline defer =
      check_defer cid actor request_id rationale params
  check_order cid actor request_id rationale params now_ms deadline _ =
      check_escalate cid actor request_id rationale params

  abbrev pub is_pending : Dict Json → Bool
  is_pending d = elim (get d (codes "status")) [ str s ↦ text_eq s (codes "pending") | _ ↦ false ]

  abbrev pub with_order :
      Text → Text → Kind → Text → Text → Surface → Result Text Order → Exec Trace Report
  with_order cid actor kind request_id rationale surface (err error) = pure (refusal cid error)
  with_order cid actor kind request_id rationale surface (ok order) =
      carry_out cid actor kind request_id rationale surface order

  abbrev pub not_pending : Text → Dict Json → Report
  not_pending cid d = record (refusal cid (codes "not_pending")) {
    outcome = some (text_of (get d (codes "status")) 40);
  }

  abbrev pub if_pending : Text → Dict Json → Bool → Exec Trace Report → Exec Trace Report
  if_pending cid d true go_on = go_on
  if_pending cid d false go_on = pure (not_pending cid d)

  -- A hold that was found, or the error that it was not.
  unfoldable pub on_hold :
      Text → Text → Kind → Dict Json → Text → Text → ℕ → Lookup → Exec Trace Report
  on_hold cid actor kind params request_id rationale now_ms (missing unreachable) =
      pure (refusal cid (if unreachable then codes "ephor_unreachable" else codes "hold_not_found"))
  on_hold cid actor kind params request_id rationale now_ms (held d surface deadline) =
      if_pending cid d (is_pending d) (
        with_order cid actor kind request_id rationale surface
          (check_order cid actor request_id rationale params now_ms deadline kind))

  abbrev pub with_request :
      Text → Text → Kind → Dict Json → ℕ → Result Text (Text × Text) → Exec Trace Report
  with_request cid actor kind params now_ms (err error) = pure (refusal cid error)
  with_request cid actor kind params now_ms (ok (request_id, rationale)) = do
    lookup ← find_hold cfg w request_id
    on_hold cid actor kind params request_id rationale now_ms lookup

  unfoldable pub decide_hold : Text → Text → Kind → Dict Json → ℕ → Exec Trace Report
  decide_hold cid actor kind params now_ms =
      with_request cid actor kind params now_ms (check_request cfg.ephor_oversight_token params)

  abbrev pub with_change_set : Text → Text → Dict Json → Result Text Text → Exec Trace Report
  with_change_set cid actor params (err error) = pure (refusal cid error)
  with_change_set cid actor params (ok cs) = record_on cid actor params cs

  unfoldable pub review_change : Text → Text → Dict Json → Exec Trace Report
  review_change cid actor params =
      with_change_set cid actor params (check_review cfg.weftmark_write_token params)

  abbrev pub by_kind : Text → Dict Json → ℕ → Result Text (Kind × Text) → Exec Trace Report
  by_kind cid params now_ms (err error) = pure (refusal cid error)
  by_kind cid params now_ms (ok (record_review, actor)) = review_change cid actor params
  by_kind cid params now_ms (ok (kind, actor)) = decide_hold cid actor kind params now_ms

  unfoldable pub apply_addressed : Text → Dict Json → ℕ → Exec Trace Report
  apply_addressed cid command now_ms = by_kind cid (params_of command) now_ms (check_header command)

  abbrev pub reported : Option Text → Dict Json → ℕ → Exec Trace (Option Report)
  reported none command now_ms = pure none
  reported (some cid) command now_ms = do
    report ← apply_addressed cid command now_ms
    pure (some report)

  -- `apply_command`; a command with no usable id has nothing to report back to.
  unfoldable pub apply_command : Json → ℕ → Exec Trace (Option Report)
  apply_command command now_ms = reported (command_id command) (dict_or_nil (some command)) now_ms
