-- ===== src/Gate/Effects.antt =====
-- gate/effects.py: the side effect and the event of each allowed action.
use refundagent.Common.{ℕ, ◌+◌, String, Option, none, some, [], ◌∷◌, map}
use refundagent.Actions.{Action, OrderRef}
use refundagent.Config
use refundagent.Domain.Enums.{Actor, CaseOutcome, Channel}
use refundagent.Domain.Payload.{Payload}
use refundagent.Domain.Result.{
  runtime_error, assertion_error, customer_not_found, invalid_relational_scope,
}
use refundagent.Domain.Texts.{CaseId, OrderId, Instant, Text, Piece, text}
use refundagent.Policy.Authorisation.{Authorisation, spend}
use refundagent.Policy.Verdicts.{Verdict, RuleContext}
use refundagent.Projection.Types.{StoredEvent}
use refundagent.Store.Adapters.{mailer_send}
use refundagent.Store.Append.{append_canonical_event}
use refundagent.Store.Queries.{lock_customer_for_update, find_customer, list_orders_for_customer}
use refundagent.Store.Rows.{CaseRow}
use refundagent.Store.Session.{Tx, raise, lift, gets, require, fresh_id, ◌>>=◌, ◌>>◌}

module _ (auth : Authorisation) (case_row : CaseRow) (k : CaseId) where
  -- Every event of an allowed action is the case's own.
  abbrev append_for_case : Option OrderId → Actor → Payload → Tx StoredEvent
  append_for_case o actor payload =
      append_canonical_event case_row.customer_id (some k) o actor Channel.internal payload

  unfoldable pub allow_get_orders : Tx StoredEvent
  allow_get_orders = do
    lift (spend auth k Action.get_orders)
    ids ← gets (λ w. map (λ r. r.id) (list_orders_for_customer case_row.customer_id w.db))
    append_for_case none Actor.agent (Payload.orders_listed ids)

  -- A text that is no order's identifier passes no check of an event's scope.
  unfoldable pub allow_link_order : OrderRef → Tx StoredEvent
  allow_link_order (OrderRef.named o) = do
    lift (spend auth k (Action.link_order (OrderRef.named o)))
    append_for_case (some o) Actor.agent (Payload.order_linked o)
  allow_link_order (OrderRef.unnamed other) = do
    lift (spend auth k (Action.link_order (OrderRef.unnamed other)))
    lock_customer_for_update case_row.customer_id
    raise invalid_relational_scope

  unfoldable pub allow_send_reply : String → String → Tx StoredEvent
  allow_send_reply subject body = do
    lift (spend auth k (Action.send_reply subject body))
    found ← gets (λ w. find_customer case_row.customer_id w.db)
    customer_row ← require found customer_not_found
    mailer_send customer_row.email subject (text body)
    append_for_case none Actor.agent (Payload.reply_sent subject body)

  -- `VERIFICATION_BODY.format(token=token)`
  abbrev verification_body : ℕ → Text
  verification_body token =
      Piece.lit "Use this verification token to continue: " ∷ Piece.id token ∷ []

  unfoldable pub allow_request_verification : Instant → Tx StoredEvent
  allow_request_verification now = do
    lift (spend auth k Action.request_verification)
    found ← gets (λ w. find_customer case_row.customer_id w.db)
    customer_row ← require found customer_not_found
    token ← fresh_id
    mailer_send customer_row.email "Verify your email address" (verification_body token)
    append_for_case none Actor.agent
        (Payload.verification_requested token (now + Config.verification_ttl_seconds))

  unfoldable pub allow_finish : String → Tx StoredEvent
  allow_finish summary = do
    lift (spend auth k (Action.finish summary))
    append_for_case none Actor.system (Payload.case_closed CaseOutcome.finished (some summary))

  -- `_dispatch_allow_verdict`
  unfoldable pub dispatch_allow_verdict : Action → RuleContext → Tx StoredEvent
  unfolding allow_get_orders allow_link_order allow_send_reply allow_request_verification
      allow_finish
  dispatch_allow_verdict (Action.propose_refund amount) ctx = raise runtime_error
  dispatch_allow_verdict Action.get_orders ctx = allow_get_orders
  dispatch_allow_verdict (Action.link_order o) ctx = allow_link_order o
  dispatch_allow_verdict (Action.send_reply subject body) ctx = allow_send_reply subject body
  dispatch_allow_verdict Action.request_verification ctx = allow_request_verification ctx.now
  dispatch_allow_verdict (Action.finish summary) ctx = allow_finish summary
  dispatch_allow_verdict (Action.escalate reason) ctx = raise runtime_error

-- `_dispatch_require_approval_verdict`: it raises for every action.
unfoldable pub dispatch_require_approval_verdict : Action → Tx Verdict
dispatch_require_approval_verdict (Action.propose_refund amount) = raise runtime_error
dispatch_require_approval_verdict _ = raise assertion_error
