-- ===== src/Decisions/Guards.antt =====
-- What `apply_command` (nix/gateway.py) asks before it decides on a hold, and what a reply of an
-- unexpected shape does to it.
use rebekah.Prelude.{ℕ, ◌≡◌, ◌≢◌, true, false, some, ◌++◌, arith}
use rebekah.Prelude.Text.{is_encodable, Text, codes}
use rebekah.Prelude.Dict.{Dict}
use rebekah.Prelude.Exec.{Result, ok, err, Raised, attribute_error}
use rebekah.Json.{Json, get, object, arr, Items, cons, get_of, or_value}
use rebekah.Decisions.Calls.{Trace, World, Config, internal_json}
use rebekah.Decisions.Check.{Kind, decide, Order, approved, verdict_of, is_past}
use rebekah.Decisions.Reports.{service_error, bridge_report}
use rebekah.Decisions.Audit.{decision_intent, audited}
use rebekah.Decisions.Hold.{Surface, bridge, Lookup, held}
use rebekah.Decisions.Apply.{send_order, carry_out, is_pending, intent_details, idempotency}

module _ (cfg : Config) (w : World) where
  -- What must hold of a lookup for a decision to leave the gateway.
  pub data Permits (kind : Kind) (params : Dict Json) (now_ms : ℕ)
      : Result Raised Lookup → Type 0 where
    permits :
        (d : Dict Json) (surface : Surface) (deadline : Json)
        → is_pending cfg w d ≡ true
        → (kind ≡ decide
            → verdict_of (get params (codes "decision")) ≡ some approved
            → is_past now_ms deadline ≡ false)
        → Permits kind params now_ms (ok (held d surface deadline))

  -- An error reply of Ephor's bridge that is a JSON list with something in it raises: the command
  -- has no report, and the intent on record is followed by no outcome.
  pub carry_out_unanswered :
      (cid actor request_id rationale digest : Text) (kind : Kind) (order : Order) (t u v : Trace)
      (status : ℕ) (x : Json) (xs : Items)
      → is_encodable rationale ≡ true
      → status ≢ 200
      → status ≢ 401
      → status ≢ 403
      → decision_intent cfg w cid actor kind (intent_details w request_id rationale order) t
        ≡ (ok digest, u)
      → internal_json cfg w
          (codes "ephor")
          (codes "POST")
          (codes "/oversight/" ++ order.verb)
          (some (object order.body))
          (some cfg.ephor_oversight_token)
          (idempotency cfg w cid)
          u
        ≡ ((some status, arr (cons x xs)), v)
      → carry_out cfg w cid actor kind request_id rationale bridge order t
        ≡ (err attribute_error, v)
  unfolding carry_out audited send_order bridge_report service_error get_of or_value
  carry_out_unanswered cid actor request_id rationale digest kind order t u v status x xs sound a b
        c d e =
      ground arith
