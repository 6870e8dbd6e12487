-- ===== src/Policy/Checks/Predicates.antt =====
-- The pure predicates of policy/checks.py, with the texts of their verdicts.
use refundagent.Common.{
  leb, Bool, false, not, Option, none, some, List, [], ◌∷◌, String, contains, is_some,
  if◌then◌else◌,
}
use refundagent.Actions.{OrderRef}
use refundagent.Common.Int.{pos}
use refundagent.Domain.Decimal.{Decimal, is_finite, at_most_zero?, over_scaled, sum_at_most?}
use refundagent.Domain.Enums.{is_open}
use refundagent.Domain.Result.{Result, ok, ◌>>=◌, or_raise, invalid_operation}
use refundagent.Domain.Texts.{OrderId, Piece, Text, text}
use refundagent.Policy.Verdicts.{CheckResult, continues, stop, Blocking, RuleContext, Deny}
use refundagent.Projection.Order.{OrderSummary, refundable_remainder}

abbrev pub refusal : String → Text → Text → CheckResult
refusal r agent customer =
    stop (Blocking.deny (record { rule = r; agent_reason = agent; customer_reason = customer }))

-- The check passes, or it refuses.
abbrev pub unless : Bool → CheckResult → CheckResult
unless passes stopped = if passes then continues else stopped

unfoldable pub deny_if_case_not_actionable : RuleContext → CheckResult
deny_if_case_not_actionable ctx = unless (is_open ctx.case.status) (
    refusal "R_CASE_NOT_ACTIONABLE"
      (text
        "This case is not open for agent actions. Wait for operator approval, customer verification, or case closure to resolve.")
      (text "We cannot process this request while your case is waiting on another step."))

unfoldable pub escalate_if_denial_loop : RuleContext → CheckResult
escalate_if_denial_loop ctx =
    if leb ctx.denial_loop_threshold ctx.case.consecutive_denials
    then stop (
        Blocking.force_escalate (record {
          rule = "R_DENIAL_LOOP";
          reason =
              text
                "The agent received too many consecutive denials and must escalate to a human operator.";
        }))
    else continues

unfoldable pub deny_if_unverified : RuleContext → CheckResult
deny_if_unverified ctx = unless ctx.customer.verified (
    refusal "R_VERIFIED"
      (text
        "The customer is not verified. Use request_verification to unlock order data and refunds. send_reply, escalate, and finish remain available.")
      (text "Please verify your identity before we can access order details or process refunds."))

unfoldable pub deny_if_already_verified : RuleContext → CheckResult
deny_if_already_verified ctx = unless (not ctx.customer.verified) (
    refusal "R_ALREADY_VERIFIED" (text "The customer is already verified.")
      (text "Your identity has already been verified."))

-- `action.order_id in ctx.customer_order_ids`
abbrev pub is_among : List OrderId → OrderRef → Bool
is_among ids (OrderRef.named order) = contains ids order
is_among ids (OrderRef.unnamed other) = false

-- `{action.order_id}` in a text
abbrev quoted : OrderRef → Piece
quoted (OrderRef.named order) = Piece.id order
quoted (OrderRef.unnamed other) = Piece.lit other

unfoldable pub deny_if_order_not_owned : RuleContext → OrderRef → CheckResult
deny_if_order_not_owned ctx order = unless (is_among ctx.customer_order_ids order) (
    refusal "R_ORDER_OWNERSHIP"
      (Piece.lit "Order " ∷ quoted order ∷ Piece.lit " does not belong to this customer." ∷ [])
      (text "We could not find that order on your account."))

unfoldable pub deny_if_no_linked_order : RuleContext → CheckResult
deny_if_no_linked_order ctx = unless (is_some ctx.case.linked_order_id) (
    refusal "R_NO_LINKED_ORDER" (text "Link an order to this case before proposing a refund.")
      (text "We need to identify the order before processing a refund."))

abbrev pub unsound_amount : Text → Text → CheckResult
unsound_amount agent customer = refusal "R_AMOUNT_SANE" agent customer

unfoldable pub deny_if_amount_unsound : Decimal → Result CheckResult
deny_if_amount_unsound amount =
    if not (is_finite amount)
    then ok (
        unsound_amount (text "Refund amount must be a finite number.")
          (text "The refund amount is not valid."))
    else do
      at_most_zero ← or_raise (at_most_zero? amount) invalid_operation
      ok (
          if at_most_zero
          then unsound_amount (text "Refund amount must be greater than zero.")
              (text "The refund amount must be greater than zero.")
          else if over_scaled amount
          then unsound_amount (text "Refund amount may have at most two decimal places.")
              (text "The refund amount is not valid.")
          else continues)

abbrev open_refund_on : Option OrderSummary → Bool
open_refund_on none = false
open_refund_on (some linked_order) = linked_order.has_open_refund

abbrev pub open_refund_deny : Deny
open_refund_deny = record {
  rule = "R_OPEN_REFUND";
  agent_reason = text "This order already has an open refund request.";
  customer_reason = text "There is already a refund in progress for this order.";
}

unfoldable pub deny_if_open_refund : RuleContext → CheckResult
deny_if_open_refund ctx =
    unless (not (open_refund_on ctx.linked_order)) (stop (Blocking.deny open_refund_deny))

abbrev exceeds_remainder : Decimal → OrderSummary → CheckResult
exceeds_remainder amount linked_order =
    refusal "R_REMAINDER"
      (Piece.lit "Refund amount "
        ∷ Piece.amount amount
        ∷ Piece.lit " exceeds the refundable remainder "
        ∷ Piece.cents (refundable_remainder linked_order)
        ∷ Piece.lit "."
        ∷ [])
      (text "The requested refund is larger than the remaining refundable amount for this order.")

abbrev check_remainder : Decimal → Option OrderSummary → Result CheckResult
check_remainder amount none = ok continues
check_remainder amount (some linked_order) = do
  within ←
      or_raise (sum_at_most? (pos 0) amount (refundable_remainder linked_order)) invalid_operation
  ok (unless within (exceeds_remainder amount linked_order))

unfoldable pub deny_if_exceeds_remainder : RuleContext → Decimal → Result CheckResult
deny_if_exceeds_remainder ctx amount = check_remainder amount ctx.linked_order

-- The sum in the text is kept as its two terms: `f"Cumulative refunds of {refunded_total + amount} exceed …"`
abbrev over_threshold : RuleContext → Decimal → OrderSummary → CheckResult
over_threshold ctx amount linked_order = stop (
    Blocking.require_approval (record {
      rule = "R_THRESHOLD";
      reason =
          Piece.lit "Cumulative refunds of "
          ∷ Piece.cents linked_order.refunded_total
          ∷ Piece.lit " + "
          ∷ Piece.amount amount
          ∷ Piece.lit " exceed the automatic approval threshold of "
          ∷ Piece.cents ctx.refund_approval_threshold
          ∷ Piece.lit "."
          ∷ [];
    }))

abbrev check_threshold : RuleContext → Decimal → Option OrderSummary → Result CheckResult
check_threshold ctx amount none = ok continues
check_threshold ctx amount (some linked_order) = do
  within ←
      or_raise (sum_at_most? linked_order.refunded_total amount ctx.refund_approval_threshold)
        invalid_operation
  ok (unless within (over_threshold ctx amount linked_order))

unfoldable pub approval_if_over_threshold : RuleContext → Decimal → Result CheckResult
approval_if_over_threshold ctx amount = check_threshold ctx amount ctx.linked_order
