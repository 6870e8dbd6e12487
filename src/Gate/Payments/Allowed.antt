-- ===== src/Gate/Payments/Allowed.antt =====
-- gate/refund.py: what a proposal that is allowed has done.
use refundagent.Common.{◌≡◌}
use refundagent.Common.Int.{ℤ}
use refundagent.Domain.Decimal.{Decimal}
use refundagent.Domain.Texts.{CustomerId, CaseId}
use refundagent.Gate.Payments.Executed.{IsPaid}
use refundagent.Gate.Refund.{RefundKey}
use refundagent.Policy.Verdicts.{Verdict, allow}
use refundagent.Store.Delivers.{Delivers}
use refundagent.Store.Returns.{Returns}
use refundagent.Store.Rows.{Database}
use refundagent.Store.Session.{World}
use refundagent.Gate.Payments.Fits.{IsForProposal}

module _ (c : CustomerId) (k : CaseId) (amount : Decimal) (db : Database) where
  -- A verdict that allows stands for a refund of this proposal that is committed as executed.
  abbrev pub IsSettled : Verdict → World → Type 0
  IsSettled v w =
      v ≡ allow
      → (key : RefundKey) × (cents : ℤ) × IsForProposal c k amount db key cents
        × IsPaid key cents w.durable
