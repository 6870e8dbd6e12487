-- ===== src/Policy/Evaluate/Permits.antt =====
-- `evaluate` against the specification: it never raises, and it allows exactly what is permitted.
use refundagent.Common.{◌≡◌, ◌≢◌, ◌↔◌, arith, Option-cases, inl, inr}
use refundagent.Actions.{Action, OrderRef}
use refundagent.Domain.Decimal.{Decimal, is_finite, at_most_zero?, over_scaled, sum_at_most?}
use refundagent.Domain.Decimal.Exact.{at_most?-sane, sum_at_most?-sane}
use refundagent.Domain.Result.{Error, err, ok, returned}
use refundagent.Policy.Evaluate.{evaluate}
use refundagent.Policy.Evaluate.Spec.{IsPermitted}
use refundagent.Projection.Order.{refundable_remainder}
use refundagent.Policy.Verdicts.{Verdict, allow, RuleContext}

never_raises : (ctx : RuleContext) (a : Action) (e : Error) → evaluate ctx a ≢ err e
unfolding evaluate is_finite at_most_zero? over_scaled sum_at_most?
never_raises ctx Action.get_orders e h = ground arith
never_raises ctx (Action.link_order (OrderRef.named o)) e h = ground arith
never_raises ctx (Action.link_order (OrderRef.unnamed s)) e h = ground arith
never_raises ctx (Action.propose_refund Decimal.nan) e h = ground arith
never_raises ctx (Action.propose_refund (Decimal.infinity s)) e h = ground arith
never_raises ctx (Action.propose_refund (Decimal.finite s c x)) e h = ground arith
never_raises ctx (Action.send_reply s b) e h = ground arith
never_raises ctx Action.request_verification e h = ground arith
never_raises ctx (Action.escalate r) e h = ground arith
never_raises ctx (Action.finish s) e h = ground arith

-- Policy returns a verdict on every proposal in every context; it never raises.
pub evaluate-total : (ctx : RuleContext) (a : Action) → (v : Verdict) × (evaluate ctx a ≡ ok v)
evaluate-total ctx a = returned (evaluate ctx a) (never_raises ctx a)

module _ (ctx : RuleContext) where
  propose-IsPermitted :
      (d : Decimal)
      → evaluate ctx (Action.propose_refund d) ≡ ok allow
      → IsPermitted ctx (Action.propose_refund d)
  unfolding evaluate is_finite at_most_zero? over_scaled
  propose-IsPermitted Decimal.nan h = ground arith
  propose-IsPermitted (Decimal.infinity s) h = ground arith
  propose-IsPermitted (Decimal.finite s c x) h = elim (Option-cases ctx.linked_order) [
    | inl missing ↦ ground arith
    | inr (order, e) ↦ ground (
      arith,
      at_most?-sane (refundable_remainder order) c x,
      sum_at_most?-sane order.refunded_total ctx.refund_approval_threshold c x,
    )
  ]

  -- What is allowed is permitted.
  allow-IsPermitted : (a : Action) → evaluate ctx a ≡ ok allow → IsPermitted ctx a
  unfolding evaluate
  allow-IsPermitted Action.get_orders h = ground arith
  allow-IsPermitted (Action.link_order (OrderRef.named o)) h = ground arith
  allow-IsPermitted (Action.link_order (OrderRef.unnamed s)) h = ground arith
  allow-IsPermitted (Action.propose_refund d) h = propose-IsPermitted d h
  allow-IsPermitted (Action.send_reply s b) h = ground arith
  allow-IsPermitted Action.request_verification h = ground arith
  allow-IsPermitted (Action.escalate r) h = ground arith
  allow-IsPermitted (Action.finish s) h = ground arith

  propose_allowed :
      (d : Decimal)
      → IsPermitted ctx (Action.propose_refund d)
      → evaluate ctx (Action.propose_refund d) ≡ ok allow
  unfolding evaluate is_finite at_most_zero? over_scaled
  propose_allowed Decimal.nan h = absurd h.0.sane
  propose_allowed (Decimal.infinity s) h = absurd h.0.sane
  propose_allowed (Decimal.finite s c x) h = elim (Option-cases ctx.linked_order) [
    | inl missing ↦ ground arith
    | inr (order, e) ↦ ground (
      arith,
      at_most?-sane (refundable_remainder order) c x,
      sum_at_most?-sane order.refunded_total ctx.refund_approval_threshold c x,
    )
  ]

  -- What is permitted is allowed.
  IsPermitted-allow : (a : Action) → IsPermitted ctx a → evaluate ctx a ≡ ok allow
  unfolding evaluate
  IsPermitted-allow Action.get_orders h = ground arith
  IsPermitted-allow (Action.link_order (OrderRef.named o)) h = ground arith
  IsPermitted-allow (Action.link_order (OrderRef.unnamed s)) h = absurd h.2
  IsPermitted-allow (Action.propose_refund d) h = propose_allowed d h
  IsPermitted-allow (Action.send_reply s b) h = ground arith
  IsPermitted-allow Action.request_verification h = ground arith
  IsPermitted-allow (Action.escalate r) h = ground arith
  IsPermitted-allow (Action.finish s) h = ground arith

-- Policy allows a proposal exactly when the specification permits it: the case is open and not in
-- a loop of denials and, by the action, the customer is verified or not yet verified, the order is
-- the customer's own, the amount is positive, finite and in whole cents and an order is linked
-- and, where the order's row is there, it has no open refund, the amount does not exceed its
-- remainder, and the total with it does not exceed the threshold.
pub evaluate-allow_iff :
    (ctx : RuleContext) (a : Action) → (evaluate ctx a ≡ ok allow) ↔ IsPermitted ctx a
evaluate-allow_iff ctx a = (allow-IsPermitted ctx a, IsPermitted-allow ctx a)
