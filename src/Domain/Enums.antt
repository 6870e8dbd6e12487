-- ===== src/Domain/Enums.antt =====
-- domain/enums.py: the closed vocabularies. `open` is a reserved word here, so the case status
-- OPEN is `opened`.
use mathlib.Core.Bool.{Bool, true, false}

pub data Actor : Type 0 where
  customer agent operator system : Actor

pub data Channel : Type 0 where
  email operator_api verification_api internal : Channel

pub data CaseStatus : Type 0 where
  opened awaiting_approval awaiting_verification closed : CaseStatus

pub data RefundStatus : Type 0 where
  pending_approval approved executed rejected expired : RefundStatus

pub data EscalationOrigin : Type 0 where
  agent policy step_limit parse_limit model_failure : EscalationOrigin

pub data OrderStatus : Type 0 where
  delivered delivered_damaged shipped : OrderStatus

pub data CaseOutcome : Type 0 where
  finished escalated step_limit parse_limit model_failure : CaseOutcome

pub data VerificationMethod : Type 0 where
  seed token : VerificationMethod

-- `is` on members of one enumeration.
abbrev pub same_actor : Actor → Actor → Bool
same_actor Actor.customer Actor.customer = true
same_actor Actor.agent Actor.agent = true
same_actor Actor.operator Actor.operator = true
same_actor Actor.system Actor.system = true
same_actor _ _ = false

abbrev pub same_channel : Channel → Channel → Bool
same_channel Channel.email Channel.email = true
same_channel Channel.operator_api Channel.operator_api = true
same_channel Channel.verification_api Channel.verification_api = true
same_channel Channel.internal Channel.internal = true
same_channel _ _ = false

abbrev pub same_refund_status : RefundStatus → RefundStatus → Bool
same_refund_status RefundStatus.pending_approval RefundStatus.pending_approval = true
same_refund_status RefundStatus.approved RefundStatus.approved = true
same_refund_status RefundStatus.executed RefundStatus.executed = true
same_refund_status RefundStatus.rejected RefundStatus.rejected = true
same_refund_status RefundStatus.expired RefundStatus.expired = true
same_refund_status _ _ = false

abbrev pub is_open : CaseStatus → Bool
is_open CaseStatus.opened = true
is_open _ = false
