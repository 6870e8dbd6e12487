-- ===== src/Domain/Events.antt =====
-- domain/events.py: the scope and the actor and channel of each event type, and the construction of
-- a canonical event.
pub mod Catalogue
use refundagent.Common.{Bool, true, false, not, ◌||◌, Option, none, some, is_some}
use refundagent.Domain.Enums.{
  Actor, Channel, EscalationOrigin, VerificationMethod, same_actor, same_channel,
}
use refundagent.Domain.Payload.{EventType, Payload, event_type}
use refundagent.Domain.Result.{
  Result, ok, err, ◌>>=◌, ◌>>◌, raise_if, invalid_event_scope, invalid_actor_channel,
}
use refundagent.Domain.Texts.{CustomerId, CaseId, OrderId}

pub record CanonicalEvent : Type 0 where
  pub customer_id : CustomerId
  pub case_id : Option CaseId
  pub order_id : Option OrderId
  pub actor : Actor
  pub channel : Channel
  pub payload : Payload

-- The three scopes that the source lists as sets of event types.
pub data Scope : Type 0 where
  customer_scoped case_scoped case_and_order_scoped : Scope

abbrev pub scope_of : EventType → Scope
scope_of EventType.customer_verified = Scope.customer_scoped
scope_of EventType.order_linked = Scope.case_and_order_scoped
scope_of EventType.refund_proposed = Scope.case_and_order_scoped
scope_of EventType.refund_auto_approved = Scope.case_and_order_scoped
scope_of EventType.refund_approval_required = Scope.case_and_order_scoped
scope_of EventType.refund_approved = Scope.case_and_order_scoped
scope_of EventType.refund_rejected = Scope.case_and_order_scoped
scope_of EventType.refund_expired = Scope.case_and_order_scoped
scope_of EventType.refund_executed = Scope.case_and_order_scoped
scope_of _ = Scope.case_scoped

-- `_validate_event_scope`
abbrev pub scope_violated : Scope → Option CaseId → Option OrderId → Bool
scope_violated Scope.customer_scoped k o = is_some k || is_some o
scope_violated Scope.case_and_order_scoped k o = not (is_some k) || not (is_some o)
scope_violated Scope.case_scoped k o = not (is_some k) || is_some o

unfoldable pub validate_event_scope : EventType → Option CaseId → Option OrderId → Result (Unit {0})
validate_event_scope t k o = raise_if (scope_violated (scope_of t) k o) invalid_event_scope

abbrev pub fixed_actor : EventType → Actor
fixed_actor EventType.email_received = Actor.customer
fixed_actor EventType.orders_listed = Actor.agent
fixed_actor EventType.order_linked = Actor.agent
fixed_actor EventType.verification_requested = Actor.agent
fixed_actor EventType.refund_proposed = Actor.agent
fixed_actor EventType.refund_approved = Actor.operator
fixed_actor EventType.refund_rejected = Actor.operator
fixed_actor EventType.reply_sent = Actor.agent
fixed_actor _ = Actor.system

abbrev pub fixed_channel : EventType → Channel
fixed_channel EventType.email_received = Channel.email
fixed_channel EventType.refund_approved = Channel.operator_api
fixed_channel EventType.refund_rejected = Channel.operator_api
fixed_channel _ = Channel.internal

-- `_expected_actor_channel`
abbrev pub expected_actor : Payload → Actor
expected_actor (Payload.escalated reason EscalationOrigin.agent ticket) = Actor.agent
expected_actor (Payload.escalated reason _ ticket) = Actor.system
expected_actor p = fixed_actor (event_type p)

abbrev pub expected_channel : Payload → Channel
expected_channel (Payload.customer_verified VerificationMethod.seed) = Channel.internal
expected_channel (Payload.customer_verified VerificationMethod.token) = Channel.verification_api
expected_channel p = fixed_channel (event_type p)

unfoldable pub build_canonical_event :
    CustomerId → Option CaseId → Option OrderId → Actor → Channel → Payload → Result CanonicalEvent
unfolding validate_event_scope
build_canonical_event customer case order actor channel payload = do
  validate_event_scope (event_type payload) case order
  raise_if
      (not (same_actor actor (expected_actor payload))
        || not (same_channel channel (expected_channel payload)))
      invalid_actor_channel
  ok (record {
    customer_id = customer;
    case_id = case;
    order_id = order;
    actor = actor;
    channel = channel;
    payload = payload;
  })
