-- ===== src/Projection/Case.antt =====
-- projections/case.py: the control state of a case, folded from the customer's events.
pub mod Closed
pub mod Growth
use mathlib.Core.List.{foldl}
use refundagent.Common.{
  ℕ, ◌+◌, ltb, ◌==◌, ◌=?◌, Bool, true, false, ◌&&◌, ◌||◌, not, is_some, Option, none, some, List,
  if◌then◌else◌, filter, sort_by,
}
use refundagent.Domain.Enums.{CaseOutcome, CaseStatus, EscalationOrigin, RefundStatus}
use refundagent.Domain.Payload.{Payload, event_type, is_customer_verified}
use refundagent.Domain.Texts.{CustomerId, CaseId, OrderId, RefundId, Instant}
use refundagent.Projection.Types.{StoredEvent, by_seq}

pub record CaseSummary : Type 0 where
  pub case_id : CaseId
  pub customer_id : CustomerId
  pub status : CaseStatus
  pub linked_order_id : Option OrderId
  pub orders_listed : Bool
  pub step_count : ℕ
  pub consecutive_denials : ℕ
  pub consecutive_invalid_outputs : ℕ
  pub last_refund_status : Option RefundStatus
  pub reply_sent_after_last_refund : Bool

pub record CaseFoldState : Type 0 where
  pub has_case_closed : Bool
  pub linked_order_id : Option OrderId
  pub orders_listed : Bool
  pub step_count : ℕ
  pub consecutive_denials : ℕ
  pub consecutive_invalid_outputs : ℕ
  pub pending_refund_id : Option RefundId
  pub last_refund_status : Option RefundStatus
  pub last_refund_lifecycle_seq : Option ℕ
  pub reply_sent_after_last_refund : Bool
  pub verification_token : Option ℕ
  pub verification_expires_at : Option Instant
  pub customer_verified : Bool

abbrev pub initial : CaseFoldState
initial = record {
  has_case_closed = false;
  linked_order_id = none;
  orders_listed = false;
  step_count = 0;
  consecutive_denials = 0;
  consecutive_invalid_outputs = 0;
  pending_refund_id = none;
  last_refund_status = none;
  last_refund_lifecycle_seq = none;
  reply_sent_after_last_refund = false;
  verification_token = none;
  verification_expires_at = none;
  customer_verified = false;
}

-- The test of `_case_fold_events`: the case's own events and the customer's verifications.
unfoldable pub in_case_fold : CustomerId → CaseId → StoredEvent → Bool
in_case_fold customer case e =
    e.customer_id == customer && (e.case_id =? case || is_customer_verified (event_type e.payload))

unfoldable pub case_fold_events : CaseId → CustomerId → List StoredEvent → List StoredEvent
case_fold_events case customer events = sort_by by_seq (filter (in_case_fold customer case) events)

-- `_event_counts_as_agent_step`
unfoldable pub counts_as_agent_step : Payload → Bool
counts_as_agent_step (Payload.orders_listed _) = true
counts_as_agent_step (Payload.order_linked _) = true
counts_as_agent_step (Payload.verification_requested _ _) = true
counts_as_agent_step (Payload.reply_sent _ _) = true
counts_as_agent_step (Payload.refund_proposed _ _) = true
counts_as_agent_step (Payload.action_denied _ _ _ _) = true
counts_as_agent_step (Payload.invalid_output _ _ _ _) = true
counts_as_agent_step (Payload.escalated _ EscalationOrigin.agent _) = true
counts_as_agent_step (Payload.escalated _ EscalationOrigin.policy _) = true
counts_as_agent_step (Payload.case_closed CaseOutcome.finished _) = true
counts_as_agent_step _ = false

-- `_event_is_successful_parse_outcome`
unfoldable pub is_successful_parse_outcome : Payload → Bool
is_successful_parse_outcome (Payload.orders_listed _) = true
is_successful_parse_outcome (Payload.order_linked _) = true
is_successful_parse_outcome (Payload.verification_requested _ _) = true
is_successful_parse_outcome (Payload.reply_sent _ _) = true
is_successful_parse_outcome (Payload.refund_proposed _ _) = true
is_successful_parse_outcome (Payload.escalated _ EscalationOrigin.agent _) = true
is_successful_parse_outcome (Payload.case_closed CaseOutcome.finished _) = true
is_successful_parse_outcome _ = false

-- The `elif` chain of `_apply_agent_attempt_accounting`, on an event that is no successful outcome.
abbrev count_failure : Payload → CaseFoldState → CaseFoldState
count_failure (Payload.action_denied _ _ _ _) s = record s {
  consecutive_denials = s.consecutive_denials + 1;
  consecutive_invalid_outputs = 0;
}
count_failure (Payload.invalid_output _ _ _ _) s = record s {
  consecutive_invalid_outputs = s.consecutive_invalid_outputs + 1;
}
count_failure _ s = s

-- `_apply_agent_attempt_accounting`
unfoldable pub account_attempt : Payload → CaseFoldState → CaseFoldState
unfolding counts_as_agent_step is_successful_parse_outcome
account_attempt p s =
    let s' = record s {
      step_count = if counts_as_agent_step p then s.step_count + 1 else s.step_count;
    } in
    if is_successful_parse_outcome p
    then record s' { consecutive_denials = 0; consecutive_invalid_outputs = 0 }
    else count_failure p s'

-- `_record_refund_lifecycle`
abbrev pub record_refund_lifecycle : RefundStatus → ℕ → CaseFoldState → CaseFoldState
record_refund_lifecycle status seq s = record s {
  last_refund_status = some status;
  last_refund_lifecycle_seq = some seq;
  reply_sent_after_last_refund = false;
}

-- The end of `_apply_reply_sent`.
abbrev note_reply : ℕ → Option ℕ → CaseFoldState → CaseFoldState
note_reply seq none s = s
note_reply seq (some last) s =
    if ltb last seq then record s { reply_sent_after_last_refund = true } else s

-- `_apply_case_event` and `_apply_refund_event`, on the event's sequence number, order and payload.
unfoldable pub apply_payload : ℕ → Option OrderId → Payload → CaseFoldState → CaseFoldState
unfolding account_attempt
apply_payload seq order (Payload.customer_verified m) s = record s { customer_verified = true }
apply_payload seq order (Payload.case_closed outcome summary) s =
    record (account_attempt (Payload.case_closed outcome summary) s) { has_case_closed = true }
apply_payload seq order (Payload.orders_listed ids) s =
    record (account_attempt (Payload.orders_listed ids) s) { orders_listed = true }
apply_payload seq order (Payload.order_linked o) s =
    record (account_attempt (Payload.order_linked o) s) { linked_order_id = order }
apply_payload seq order (Payload.verification_requested token expires_at) s =
    record (account_attempt (Payload.verification_requested token expires_at) s) {
      verification_token = some token;
      verification_expires_at = some expires_at;
    }
apply_payload seq order (Payload.action_denied a rule ar cr) s =
    account_attempt (Payload.action_denied a rule ar cr) s
apply_payload seq order (Payload.invalid_output p n h e) s =
    account_attempt (Payload.invalid_output p n h e) s
apply_payload seq order (Payload.escalated reason origin ticket) s =
    account_attempt (Payload.escalated reason origin ticket) s
apply_payload seq order (Payload.refund_proposed r amount) s =
    record_refund_lifecycle RefundStatus.pending_approval seq
      (account_attempt (Payload.refund_proposed r amount) s)
apply_payload seq order (Payload.refund_auto_approved r) s =
    record_refund_lifecycle RefundStatus.approved seq s
apply_payload seq order (Payload.refund_approval_required r amount rule) s =
    record_refund_lifecycle RefundStatus.pending_approval seq
      (record s { pending_refund_id = some r })
apply_payload seq order (Payload.refund_approved r operator) s =
    record_refund_lifecycle RefundStatus.approved seq (record s { pending_refund_id = none })
apply_payload seq order (Payload.refund_rejected r operator reason) s =
    record_refund_lifecycle RefundStatus.rejected seq (record s { pending_refund_id = none })
apply_payload seq order (Payload.refund_expired r) s =
    record_refund_lifecycle RefundStatus.expired seq (record s { pending_refund_id = none })
apply_payload seq order (Payload.refund_executed r amount ref) s =
    record_refund_lifecycle RefundStatus.executed seq s
apply_payload seq order (Payload.reply_sent subject body) s =
    note_reply seq s.last_refund_lifecycle_seq (account_attempt (Payload.reply_sent subject body) s)
apply_payload seq order (Payload.case_opened m) s = s
apply_payload seq order (Payload.email_received m subject body) s = s

abbrev pub apply_case_event : CaseFoldState → StoredEvent → CaseFoldState
apply_case_event s e = apply_payload e.seq e.order_id e.payload s

-- `now < expires_at`, where an expiry is recorded.
abbrev before : Instant → Option Instant → Bool
before now none = false
before now (some expires_at) = ltb now expires_at

-- `_resolve_case_status`
unfoldable pub resolve_case_status : CaseFoldState → Instant → CaseStatus
resolve_case_status s now =
    if s.has_case_closed
    then CaseStatus.closed
    else if is_some s.pending_refund_id
    then CaseStatus.awaiting_approval
    else if is_some s.verification_token
        && not s.customer_verified
        && before now s.verification_expires_at
    then CaseStatus.awaiting_verification
    else CaseStatus.opened

-- The fold state that `project_case_summary` reads its summary from.
unfoldable pub fold_case : CaseId → CustomerId → List StoredEvent → CaseFoldState
fold_case case customer events =
    foldl apply_case_event initial (case_fold_events case customer events)

unfoldable pub project_case_summary : CaseId → CustomerId → List StoredEvent → Instant → CaseSummary
unfolding fold_case
project_case_summary case customer events now =
    let s = fold_case case customer events in
    record {
      case_id = case;
      customer_id = customer;
      status = resolve_case_status s now;
      linked_order_id = s.linked_order_id;
      orders_listed = s.orders_listed;
      step_count = s.step_count;
      consecutive_denials = s.consecutive_denials;
      consecutive_invalid_outputs = s.consecutive_invalid_outputs;
      last_refund_status = s.last_refund_status;
      reply_sent_after_last_refund = s.reply_sent_after_last_refund;
    }
