-- ===== src/Gate/Payments/Quiet.antt =====
-- What the gate does without reaching the payment provider, the mailer or the ticketing system.
use refundagent.Common.{ℕ, String, ◌≡◌, refl}
use refundagent.Domain.Decimal.{Decimal}
use refundagent.Domain.Texts.{CustomerId, CaseId, RefundId}
use refundagent.Gate.Common.{expire_due_refunds_for_customer}
use refundagent.Gate.Keeps.{Keeps-expire}
use refundagent.Gate.Keeps.Operations.{Keeps-confirm, Keeps-reject}
use refundagent.Gate.Keeps.Payments.{Keeps-persist}
use refundagent.Gate.Operator.{reject_refund}
use refundagent.Gate.Refund.{persist_refund_proposal}
use refundagent.Gate.Verification.{confirm_verification}
use refundagent.Store.Keeps.Stable.{quiet}
use refundagent.Store.Session.{World}

-- Persisting a proposal, rejecting a refund, sweeping a customer's expired approvals and
-- confirming a token leave everything that the payment provider, the mailer and the ticketing
-- system have recorded as it was, whether they return or raise.
pub outside_unchanged :
    (w : World) (c : CustomerId) (k : CaseId) (amount : Decimal) (r : RefundId)
    (operator reason : String) (token : ℕ)
    → ((persist_refund_proposal c k amount w).1.outside ≡ w.outside)
      × ((reject_refund r operator reason w).1.outside ≡ w.outside)
      × ((expire_due_refunds_for_customer c w).1.outside ≡ w.outside)
      × ((confirm_verification token w).1.outside ≡ w.outside)
outside_unchanged w c k amount r operator reason token = (
  (Keeps-persist (quiet w.outside) c k amount).at w refl,
  (Keeps-reject (quiet w.outside) r operator reason).at w refl,
  (Keeps-expire (quiet w.outside) c).at w refl,
  (Keeps-confirm (quiet w.outside) token).at w refl,
)
