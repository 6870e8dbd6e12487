-- ===== src/Policy/Evaluate/Spec.antt =====
-- What policy permits, stated without the checks.
use refundagent.Common.{◌<◌, ◌≤◌, ◌≡◌, ◌≢◌, true, false, Option, none, some, contains}
use refundagent.Common.Int.{ℤ, pos, ◌+ℤ◌, ◌≤ℤ◌, neg_part}
use refundagent.Actions.{Action, OrderRef}
use refundagent.Domain.Decimal.{Decimal, coefficient_at}
use refundagent.Domain.Enums.{CaseStatus}
use refundagent.Policy.Verdicts.{RuleContext}
use refundagent.Projection.Order.{OrderSummary, refundable_remainder}

-- The case is open, and the agent is not in a loop of denials.
pub record IsActionable (ctx : RuleContext) : Type 0 where
  pub opened : ctx.case.status ≡ CaseStatus.opened
  pub no_denial_loop : ctx.case.consecutive_denials < ctx.denial_loop_threshold

-- A positive finite amount of at most two decimals.
abbrev pub IsSane : Decimal → Type 0
IsSane (Decimal.finite negative c e) = (negative ≡ false) × (0 < c) × (neg_part e ≤ 2)
IsSane _ = ⊥

abbrev pub cents_of : Decimal → ℤ
cents_of (Decimal.finite negative c e) = pos (coefficient_at c e)
cents_of _ = pos 0

-- The limits on a refund of `amount` cents, for an order that the database has.
abbrev pub WithinOrder : ℤ → Option OrderSummary → Type 0
WithinOrder amount none = Unit
WithinOrder amount (some order) =
    (order.has_open_refund ≡ false) × (amount ≤ℤ refundable_remainder order)

abbrev pub WithinThreshold : ℤ → ℤ → Option OrderSummary → Type 0
WithinThreshold threshold amount none = Unit
WithinThreshold threshold amount (some order) = order.refunded_total +ℤ amount ≤ℤ threshold

-- A refund that may be proposed, if perhaps with an operator's approval.
pub record MayPropose (ctx : RuleContext) (amount : Decimal) : Type 0 where
  pub actionable : IsActionable ctx
  pub verified : ctx.customer.verified ≡ true
  pub linked : ctx.case.linked_order_id ≢ none
  pub sane : IsSane amount
  pub within_order : WithinOrder (cents_of amount) ctx.linked_order

-- The text names an order of the customer.
abbrev pub IsOwn : RuleContext → OrderRef → Type 0
IsOwn ctx (OrderRef.named order) = contains ctx.customer_order_ids order ≡ true
IsOwn ctx (OrderRef.unnamed other) = ⊥

abbrev pub IsPermitted : RuleContext → Action → Type 0
IsPermitted ctx Action.get_orders = IsActionable ctx × (ctx.customer.verified ≡ true)
IsPermitted ctx (Action.link_order o) =
    IsActionable ctx × (ctx.customer.verified ≡ true) × IsOwn ctx o
IsPermitted ctx (Action.propose_refund amount) =
    MayPropose ctx amount
    × WithinThreshold ctx.refund_approval_threshold (cents_of amount) ctx.linked_order
IsPermitted ctx (Action.send_reply s b) = IsActionable ctx
IsPermitted ctx Action.request_verification = IsActionable ctx × (ctx.customer.verified ≡ false)
IsPermitted ctx (Action.escalate r) = IsActionable ctx
IsPermitted ctx (Action.finish s) = IsActionable ctx
