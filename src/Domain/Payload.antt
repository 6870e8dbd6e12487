-- ===== src/Domain/Payload.antt =====
-- domain/payloads.py and the catalogue of event types in domain/events.py. One constructor holds the
-- payload of each event type, so the type is read off the payload: that a payload has the fields of
-- its type's schema is what pydantic validates at every append and every read.
use refundagent.Common.Chars.{Chars}
use refundagent.Common.{ℕ, String, Option, List, Bool, true, false}
use refundagent.Common.Int.{ℤ}
use refundagent.Domain.Enums.{CaseOutcome, EscalationOrigin, VerificationMethod}
use refundagent.Domain.Texts.{OrderId, RefundId, Instant, Text}

pub data EventType : Type 0 where
  case_opened email_received orders_listed order_linked verification_requested : EventType
  customer_verified refund_proposed refund_auto_approved refund_approval_required : EventType
  refund_approved refund_rejected refund_expired refund_executed reply_sent escalated : EventType
  action_denied invalid_output case_closed : EventType

-- The action name on a denial event, and the field `action` of each action model.
pub data ActionName : Type 0 where
  get_orders link_order propose_refund send_reply request_verification escalate finish : ActionName

pub data Payload : Type 0 where
  -- opening_message_id
  case_opened : String → Payload
  -- message_id, subject, body
  email_received : String → String → String → Payload
  orders_listed : List OrderId → Payload
  order_linked : OrderId → Payload
  -- token, expires_at
  verification_requested : ℕ → Instant → Payload
  customer_verified : VerificationMethod → Payload
  -- refund_id, amount
  refund_proposed : RefundId → ℤ → Payload
  refund_auto_approved : RefundId → Payload
  -- refund_id, amount, rule
  refund_approval_required : RefundId → ℤ → String → Payload
  -- refund_id, operator_id
  refund_approved : RefundId → String → Payload
  -- refund_id, operator_id, reason
  refund_rejected : RefundId → String → String → Payload
  refund_expired : RefundId → Payload
  -- refund_id, amount, provider_ref
  refund_executed : RefundId → ℤ → ℕ → Payload
  -- subject, body
  reply_sent : String → String → Payload
  -- reason, origin, ticket_id
  escalated : Text → EscalationOrigin → ℕ → Payload
  -- action, rule, agent_reason, customer_reason
  action_denied : ActionName → String → Text → Text → Payload
  -- preview, byte_count, sha256, error
  invalid_output : Chars → ℕ → String → String → Payload
  -- outcome, summary
  case_closed : CaseOutcome → Option String → Payload

abbrev pub event_type : Payload → EventType
event_type (Payload.case_opened _) = EventType.case_opened
event_type (Payload.email_received _ _ _) = EventType.email_received
event_type (Payload.orders_listed _) = EventType.orders_listed
event_type (Payload.order_linked _) = EventType.order_linked
event_type (Payload.verification_requested _ _) = EventType.verification_requested
event_type (Payload.customer_verified _) = EventType.customer_verified
event_type (Payload.refund_proposed _ _) = EventType.refund_proposed
event_type (Payload.refund_auto_approved _) = EventType.refund_auto_approved
event_type (Payload.refund_approval_required _ _ _) = EventType.refund_approval_required
event_type (Payload.refund_approved _ _) = EventType.refund_approved
event_type (Payload.refund_rejected _ _ _) = EventType.refund_rejected
event_type (Payload.refund_expired _) = EventType.refund_expired
event_type (Payload.refund_executed _ _ _) = EventType.refund_executed
event_type (Payload.reply_sent _ _) = EventType.reply_sent
event_type (Payload.escalated _ _ _) = EventType.escalated
event_type (Payload.action_denied _ _ _ _) = EventType.action_denied
event_type (Payload.invalid_output _ _ _ _) = EventType.invalid_output
event_type (Payload.case_closed _ _) = EventType.case_closed

abbrev pub is_customer_verified : EventType → Bool
is_customer_verified EventType.customer_verified = true
is_customer_verified _ = false
