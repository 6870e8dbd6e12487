-- ===== src/Gate/Common.antt =====
-- gate/common.py: loading the context of policy, the sweep of expired approvals, and the events of a
-- denial and of an escalation.
use refundagent.Common.{
  ℕ, ◌==◌, Bool, false, ◌&&◌, Option, none, some, List, [], ◌∷◌, ◌++◌, filter, map, sort_by,
  contains, if◌then◌else◌,
}
use refundagent.Actions.{Action, action_discriminator}
use refundagent.Config
use refundagent.Domain.Enums.{
  Actor, CaseOutcome, Channel, EscalationOrigin, RefundStatus, is_open, same_refund_status,
}
use refundagent.Domain.Payload.{Payload}
use refundagent.Domain.Result.{ok, case_not_found, customer_not_found}
use refundagent.Domain.Texts.{CustomerId, CaseId, OrderId, Instant, Text}
use refundagent.Policy.Verdicts.{Deny, RuleContext}
use refundagent.Projection.Case.{project_case_summary}
use refundagent.Projection.Customer.{project_customer_summary}
use refundagent.Projection.Order.{OrderSummary, project_order_summary}
use refundagent.Projection.Types.{StoredEvent}
use refundagent.Store.Append.{append_canonical_event}
use refundagent.Store.Names.{name_leb}
use refundagent.Store.Queries.{
  find_customer, find_case, find_order_by_id, list_orders_for_customer,
  list_cases_for_customer_ordered, load_customer_events, lock_customer_for_update, due_for_expiry,
}
use refundagent.Store.Rows.{OrderRow, CaseRow, RefundRow, Database}
use refundagent.Store.Session.{Tx, pure, gets, require, now, ◌>>=◌, ◌>>◌}
use refundagent.Store.Transitions.{transition_refund_status}

-- Whether the case is open in the customer's events at an instant.
abbrev pub case_open_at : CustomerId → List StoredEvent → Instant → CaseId → Bool
case_open_at c events at k = is_open (project_case_summary k c events at).status

abbrev pub case_ids : List CaseRow → List CaseId
case_ids rows = map (λ r. r.id) rows

unfoldable pub find_open_case_ids_for_customer : CustomerId → Instant → Database → List CaseId
find_open_case_ids_for_customer c at db =
    filter (case_open_at c (load_customer_events c db) at)
      (case_ids (list_cases_for_customer_ordered c db))

abbrev pub escalated_actor_for_origin : EscalationOrigin → Actor
escalated_actor_for_origin EscalationOrigin.agent = Actor.agent
escalated_actor_for_origin _ = Actor.system

abbrev pub case_outcome_for_escalation_origin : EscalationOrigin → CaseOutcome
case_outcome_for_escalation_origin EscalationOrigin.agent = CaseOutcome.escalated
case_outcome_for_escalation_origin EscalationOrigin.policy = CaseOutcome.escalated
case_outcome_for_escalation_origin EscalationOrigin.step_limit = CaseOutcome.step_limit
case_outcome_for_escalation_origin EscalationOrigin.parse_limit = CaseOutcome.parse_limit
case_outcome_for_escalation_origin EscalationOrigin.model_failure = CaseOutcome.model_failure

abbrev order_summary : List StoredEvent → Option OrderRow → Option OrderSummary
order_summary events none = none
order_summary events (some row) = some (
    project_order_summary
      (record { order_id = row.id; customer_id = row.customer_id; total = row.total }) events)

-- The summary of the linked order, where one is linked and its row is there.
abbrev pub linked_order_summary : List StoredEvent → Database → Option OrderId → Option OrderSummary
linked_order_summary events db none = none
linked_order_summary events db (some o) = order_summary events (find_order_by_id o db)

unfoldable pub load_rule_context_for_case : CaseId → Tx (CaseRow × RuleContext)
load_rule_context_for_case k = do
  found_case ← gets (λ w. find_case k w.db)
  case_row ← require found_case case_not_found
  found_customer ← gets (λ w. find_customer case_row.customer_id w.db)
  customer_row ← require found_customer customer_not_found
  events ← gets (λ w. load_customer_events case_row.customer_id w.db)
  at ← now
  let summary = project_case_summary k case_row.customer_id events at
  db ← gets (λ w. w.db)
  pure (
    case_row,
    record {
      now = at;
      customer =
          project_customer_summary
            (record { customer_id = customer_row.id; email = customer_row.email }) events;
      case = summary;
      linked_order = linked_order_summary events db summary.linked_order_id;
      customer_order_ids = map (λ r. r.id) (list_orders_for_customer case_row.customer_id db);
      refund_approval_threshold = Config.refund_approval_threshold;
      denial_loop_threshold = Config.denial_loop_threshold;
    },
  )

abbrev case_of : CustomerId → Option CaseRow → Bool
case_of c none = false
case_of c (some k) = k.customer_id == c

-- The join and the WHERE clause of the sweep's query, and its order.
unfoldable pub due_row : CustomerId → Instant → Database → RefundRow → Bool
unfolding due_for_expiry
due_row c at db row =
    case_of c (find_case row.case_id db)
    && (same_refund_status row.status RefundStatus.pending_approval && due_for_expiry at row)

abbrev pub by_case_and_id : RefundRow → RefundRow → Bool
by_case_and_id a b =
    if a.case_id == b.case_id then name_leb a.id b.id else name_leb a.case_id b.case_id

unfoldable pub due_refund_rows : CustomerId → Instant → Database → List RefundRow
unfolding due_row
due_refund_rows c at db = sort_by by_case_and_id (filter (due_row c at db) db.refunds)

-- The event that the sweep appends for a refund that it moved.
unfoldable pub append_refund_expired : CustomerId → RefundRow → Tx StoredEvent
append_refund_expired c row =
    append_canonical_event c (some row.case_id) (some row.order_id) Actor.system Channel.internal
      (Payload.refund_expired row.id)

-- `expired_case_ids[case_id] = None` on a dict that keeps its order.
abbrev pub note_case : CaseId → List CaseId → List CaseId
note_case k ks = if contains ks k then ks else ks ++ k ∷ []

-- The loop of the sweep over the rows, which gathers the cases of the refunds that it moved.
unfoldable pub expire_rows : CustomerId → List RefundRow → List CaseId → Tx (List CaseId)
unfolding append_refund_expired
expire_rows c [] ks w = (ok ks, w)
expire_rows c (row ∷ rows) ks w =
    let rest = expire_rows c rows in
    (do
      changed ←
          transition_refund_status row.id RefundStatus.pending_approval RefundStatus.expired none
      if changed
          then (do append_refund_expired c row; rest (note_case row.case_id ks))
          else rest ks)
      w

unfoldable pub expire_due_refunds_for_customer : CustomerId → Tx (List CaseId)
unfolding expire_rows
expire_due_refunds_for_customer c = do
  lock_customer_for_update c
  at ← now
  rows ← gets (λ w. due_refund_rows c at w.db)
  expired ← expire_rows c rows []
  events ← gets (λ w. load_customer_events c w.db)
  pure (filter (case_open_at c events at) (sort_by name_leb expired))

unfoldable pub append_action_denied : CustomerId → CaseId → Action → Deny → Tx StoredEvent
append_action_denied c k a d =
    append_canonical_event c (some k) none Actor.system Channel.internal
      (Payload.action_denied (action_discriminator a) d.rule d.agent_reason d.customer_reason)

unfoldable pub append_escalated_and_case_closed :
    CustomerId → CaseId → EscalationOrigin → Text → ℕ → Tx StoredEvent
append_escalated_and_case_closed c k origin reason ticket = do
  append_canonical_event c (some k) none (escalated_actor_for_origin origin) Channel.internal
      (Payload.escalated reason origin ticket)
  append_canonical_event c (some k) none Actor.system Channel.internal
      (Payload.case_closed (case_outcome_for_escalation_origin origin) none)
