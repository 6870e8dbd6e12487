-- ===== src/Policy/Examples.antt =====
-- The theorems on policy at a verified customer whose case is linked to an order of 900.00, in cents.
use refundagent.Common.{none, some, true, false, ◌≡◌, ◌↔◌, refl, [], ◌∷◌, ℕ, arith}
use refundagent.Common.Int.{◌-ℤ◌, pos, negsuc}
use refundagent.Actions.{Action}
use refundagent.Domain.Decimal.{
  Decimal, is_finite, at_most_zero?, over_scaled, sum_at_most?, quantize_cents?,
}
use refundagent.Domain.Enums.{CaseStatus}
use refundagent.Domain.Result.{ok}
use refundagent.Domain.Texts.{Piece}
use refundagent.Policy.Authorisation.{Authorisation}
use refundagent.Policy.Checks.{applicable_obligations}
use refundagent.Policy.Evaluate.{evaluate}
use refundagent.Policy.Evaluate.Order.{questions, first_answer, evaluate-first_answer}
use refundagent.Policy.Evaluate.Permits.{evaluate-total, evaluate-allow_iff}
use refundagent.Policy.Evaluate.Refunds.{
  IsPayable, allowed_refund, NeedsApproval, require_approval-NeedsApproval,
}
use refundagent.Policy.Evaluate.Spec.{IsPermitted}
use refundagent.Policy.Verdicts.{Verdict, allow, block, Blocking, RequireApproval, RuleContext}
use refundagent.Projection.Order.{OrderSummary}

abbrev order : OrderSummary
order = record {
  order_id = 1001;
  customer_id = 1;
  total = pos 90000;
  refunded_total = pos 10000;
  has_open_refund = false;
}

abbrev context : RuleContext
context = record {
  now = 100;
  customer = record { customer_id = 1; email = "a@example.com"; verified = true };
  case = record {
    case_id = 1;
    customer_id = 1;
    status = CaseStatus.opened;
    linked_order_id = some 1001;
    orders_listed = true;
    step_count = 2;
    consecutive_denials = 0;
    consecutive_invalid_outputs = 0;
    last_refund_status = none;
    reply_sent_after_last_refund = false;
  };
  linked_order = some order;
  customer_order_ids = 1001 ∷ [];
  refund_approval_threshold = pos 50000;
  denial_loop_threshold = 3;
}

-- 400.00 with the 100.00 refunded before is the threshold; 400.01 is above it.
abbrev at_threshold : Decimal
at_threshold = Decimal.finite false 40000 (negsuc 1)

abbrev above_threshold : Decimal
above_threshold = Decimal.finite false 40001 (negsuc 1)

evaluate-total_example :
    (v : Verdict) × (evaluate context (Action.propose_refund Decimal.nan) ≡ ok v)
evaluate-total_example = evaluate-total context (Action.propose_refund Decimal.nan)

evaluate-allow_iff_example :
    (evaluate context (Action.propose_refund at_threshold) ≡ ok allow)
    ↔ IsPermitted context (Action.propose_refund at_threshold)
evaluate-allow_iff_example = evaluate-allow_iff context (Action.propose_refund at_threshold)

allows : evaluate context (Action.propose_refund at_threshold) ≡ ok allow
unfolding evaluate is_finite at_most_zero? over_scaled sum_at_most? ◌-ℤ◌
allows = refl

allowed_refund_example :
    (n : ℕ) × (quantize_cents? at_threshold ≡ some (pos n)) × IsPayable context order n
unfolding ◌-ℤ◌
allowed_refund_example = allowed_refund context at_threshold order allows refl (omega arith)

-- What policy asks of the operator above the threshold.
abbrev needed : RequireApproval
needed = record {
  rule = "R_THRESHOLD";
  reason =
      Piece.lit "Cumulative refunds of "
      ∷ Piece.cents (pos 10000)
      ∷ Piece.lit " + "
      ∷ Piece.amount above_threshold
      ∷ Piece.lit " exceed the automatic approval threshold of "
      ∷ Piece.cents (pos 50000)
      ∷ Piece.lit "."
      ∷ [];
}

asks :
    evaluate context (Action.propose_refund above_threshold)
    ≡ ok (block (Blocking.require_approval needed))
unfolding evaluate is_finite at_most_zero? over_scaled sum_at_most? ◌-ℤ◌
asks = refl

require_approval-NeedsApproval_example :
    NeedsApproval context (Action.propose_refund above_threshold)
require_approval-NeedsApproval_example =
    require_approval-NeedsApproval context (Action.propose_refund above_threshold) needed asks

evaluate-first_answer_example :
    evaluate context (Action.propose_refund above_threshold)
    ≡ first_answer (questions context (Action.propose_refund above_threshold))
evaluate-first_answer_example =
    evaluate-first_answer context (Action.propose_refund above_threshold)

abbrev granted_refund : Authorisation
granted_refund = record {
  case_id = context.case.case_id;
  action = Action.propose_refund at_threshold;
  obligations_discharged = applicable_obligations (Action.propose_refund at_threshold);
  spent = false;
}
