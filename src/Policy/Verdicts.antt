-- ===== src/Policy/Verdicts.antt =====
-- policy/verdicts.py and policy/context.py. A verdict allows, or it blocks in one of three ways; a
-- check continues, or it stops with one of the same three.
use refundagent.Common.{ℕ, String, List, Option}
use refundagent.Common.Int.{ℤ}
use refundagent.Domain.Texts.{OrderId, Instant, Text}
use refundagent.Projection.Case.{CaseSummary}
use refundagent.Projection.Customer.{CustomerSummary}
use refundagent.Projection.Order.{OrderSummary}

pub record Deny : Type 0 where
  pub rule : String
  pub agent_reason : Text
  pub customer_reason : Text

pub record RequireApproval : Type 0 where
  pub rule : String
  pub reason : Text

pub record ForceEscalate : Type 0 where
  pub rule : String
  pub reason : Text

pub data Blocking : Type 0 where
  deny : Deny → Blocking
  require_approval : RequireApproval → Blocking
  force_escalate : ForceEscalate → Blocking

pub data CheckResult : Type 0 where
  continues : CheckResult
  stop : Blocking → CheckResult

pub data Verdict : Type 0 where
  allow : Verdict
  block : Blocking → Verdict

pub record RuleContext : Type 0 where
  pub now : Instant
  pub customer : CustomerSummary
  pub case : CaseSummary
  pub linked_order : Option OrderSummary
  pub customer_order_ids : List OrderId
  pub refund_approval_threshold : ℤ
  pub denial_loop_threshold : ℕ
