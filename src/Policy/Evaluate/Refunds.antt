-- ===== src/Policy/Evaluate/Refunds.antt =====
-- What a verdict on a refund proposal says of its amount.
use refundagent.Common.{ℕ, zero, suc, ◌*◌, ◌^◌, ◌<◌, ◌≡◌, refl, some, arith, Option-cases, inl, inr}
use refundagent.Common.Int.{pos, ◌+ℤ◌, ◌≤ℤ◌}
use refundagent.Actions.{Action}
use refundagent.Domain.Decimal.{
  Decimal, coefficient_at, is_finite, at_most_zero?, over_scaled, quantize_cents?,
}
use refundagent.Domain.Decimal.Exact.{at_most?-sane, sum_at_most?-sane, quantize_cents?-sane}
use refundagent.Domain.Result.{ok}
use refundagent.Policy.Evaluate.{evaluate}
use refundagent.Policy.Evaluate.Permits.{evaluate-allow_iff}
use refundagent.Policy.Evaluate.Spec.{MayPropose, IsSane, WithinThreshold, cents_of}
use refundagent.Policy.Verdicts.{allow, block, Blocking, RequireApproval, RuleContext}
use refundagent.Projection.Order.{OrderSummary, refundable_remainder}

pow-pos : (k : ℕ) → 0 < 10 ^ k
pow-pos zero = omega arith
pow-pos (suc k) = omega (arith, pow-pos k)

mul-pos : (a b : ℕ) → 0 < a → 0 < b → 0 < a * b
mul-pos a b h k = grind arith

-- The amount that is stored for a refund which policy lets through to the order's limits.
quantized :
    (amount : Decimal) (order : OrderSummary)
    → IsSane amount
    → cents_of amount ≤ℤ refundable_remainder order
    → refundable_remainder order ≤ℤ pos (10 ^ 12)
    → (n : ℕ) × (quantize_cents? amount ≡ some (pos n)) × (0 < n) × (cents_of amount ≡ pos n)
quantized Decimal.nan order sane within column = absurd sane
quantized (Decimal.infinity s) order sane within column = absurd sane
quantized (Decimal.finite s c e) order (positive, nonzero, scale) within column = (
  coefficient_at c e,
  rw positive (quantize_cents?-sane c e scale (omega arith)),
  mul-pos c _ nonzero (pow-pos _),
  refl,
)

-- The terms on which an amount is stored for an order.
pub record IsPayable (ctx : RuleContext) (order : OrderSummary) (n : ℕ) : Type 0 where
  pub positive : 0 < n
  pub within_remainder : pos n ≤ℤ refundable_remainder order
  pub within_threshold : order.refunded_total +ℤ pos n ≤ℤ ctx.refund_approval_threshold

-- When policy allows a refund of the linked order, and the order's remainder fits the money
-- column, the amount is stored as a positive number of cents that does not exceed the remainder
-- and with which the order's refunded total does not exceed the threshold.
pub allowed_refund :
    (ctx : RuleContext) (amount : Decimal) (order : OrderSummary)
    → evaluate ctx (Action.propose_refund amount) ≡ ok allow
    → ctx.linked_order ≡ some order
    → refundable_remainder order ≤ℤ pos (10 ^ 12)
    → (n : ℕ) × (quantize_cents? amount ≡ some (pos n)) × IsPayable ctx order n
allowed_refund ctx amount order h e column =
    let (proposal, threshold) = (evaluate-allow_iff ctx (Action.propose_refund amount)).0 h in
    let limits = rw e at proposal.within_order in
    let (n, stored, positive, same) = quantized amount order proposal.sane limits.1 column in
    (
      n,
      stored,
      record {
        positive = positive;
        within_remainder = rw same at limits.1;
        within_threshold = rw (e, same) at threshold;
      },
    )

-- A proposal that waits for an operator.
abbrev pub NeedsApproval : RuleContext → Action → Type 0
NeedsApproval ctx (Action.propose_refund amount) =
    MayPropose ctx amount
    × ¬ (WithinThreshold ctx.refund_approval_threshold (cents_of amount) ctx.linked_order)
NeedsApproval ctx _ = ⊥

propose-NeedsApproval :
    (ctx : RuleContext) (d : Decimal) (r : RequireApproval)
    → evaluate ctx (Action.propose_refund d) ≡ ok (block (Blocking.require_approval r))
    → NeedsApproval ctx (Action.propose_refund d)
unfolding evaluate is_finite at_most_zero? over_scaled
propose-NeedsApproval ctx Decimal.nan r h = ground arith
propose-NeedsApproval ctx (Decimal.infinity s) r h = ground arith
propose-NeedsApproval ctx (Decimal.finite s c x) r h = elim (Option-cases ctx.linked_order) [
  | inl missing ↦ ground arith
  | inr (order, e) ↦ ground (
    arith,
    at_most?-sane (refundable_remainder order) c x,
    sum_at_most?-sane order.refunded_total ctx.refund_approval_threshold c x,
  )
]

-- When policy asks for an operator, the action is a refund proposal that meets every condition but
-- the threshold, and the threshold is exceeded.
pub require_approval-NeedsApproval :
    (ctx : RuleContext) (a : Action) (r : RequireApproval)
    → evaluate ctx a ≡ ok (block (Blocking.require_approval r))
    → NeedsApproval ctx a
unfolding evaluate
require_approval-NeedsApproval ctx Action.get_orders r h = ground arith
require_approval-NeedsApproval ctx (Action.link_order o) r h = ground arith
require_approval-NeedsApproval ctx (Action.propose_refund d) r h = propose-NeedsApproval ctx d r h
require_approval-NeedsApproval ctx (Action.send_reply s b) r h = ground arith
require_approval-NeedsApproval ctx Action.request_verification r h = ground arith
require_approval-NeedsApproval ctx (Action.escalate t) r h = ground arith
require_approval-NeedsApproval ctx (Action.finish s) r h = ground arith
