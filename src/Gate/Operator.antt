-- ===== src/Gate/Operator.antt =====
-- gate/operator.py and gate/outcomes.py: an operator approves or rejects a pending refund.
use refundagent.Common.{String, not, some, List, if◌then◌else◌}
use refundagent.Domain.Enums.{RefundStatus, same_refund_status}
use refundagent.Domain.Result.{case_not_found}
use refundagent.Domain.Texts.{CustomerId, CaseId, RefundId}
use refundagent.Gate.Common.{expire_due_refunds_for_customer}
use refundagent.Gate.Refund.{
  refund_key, binding_of, append_refund_event, append_refund_approved, append_refund_rejected,
  commit, execute_payment_after_committed_intent,
}
use refundagent.Store.Intent.{validate_refund_intent}
use refundagent.Store.Queries.{find_case, require_refund_by_id, lock_customer_for_update}
use refundagent.Store.Rows.{RefundRow}
use refundagent.Store.Session.{Tx, from_state, pure, lift, gets, require, ◌>>=◌, ◌>>◌}
use refundagent.Store.Transitions.{transition_refund_status}

pub data OperatorResultKind : Type 0 where
  approved rejected conflict : OperatorResultKind

pub record OperatorOutcome : Type 0 where
  pub kind : OperatorResultKind
  pub case_id : CaseId
  pub refund_id : RefundId
  pub refund_status : RefundStatus
  pub reopened_case_ids : List CaseId

-- `_customer_id_for_case`
unfoldable pub customer_id_for_case : CaseId → Tx CustomerId
customer_id_for_case k = do
  found ← gets (λ w. find_case k w.db)
  row ← require found case_not_found
  pure row.customer_id

abbrev pub outcome :
    OperatorResultKind → CaseId → RefundId → RefundStatus → List CaseId → OperatorOutcome
outcome kind k r status reopened = record {
  kind = kind;
  case_id = k;
  refund_id = r;
  refund_status = status;
  reopened_case_ids = reopened;
}

-- `refresh`, then the conflict with the status that the row has now.
unfoldable pub report_conflict : CaseId → RefundId → List CaseId → Tx OperatorOutcome
unfolding require_refund_by_id
report_conflict k r reopened = do
  row ← require_refund_by_id r
  pure (outcome OperatorResultKind.conflict k r row.status reopened)

-- `approve_refund` once the row is seen to be pending, under the lock.
unfoldable pub approve_pending :
    CustomerId → CaseId → RefundRow → RefundId → String → List CaseId → Tx OperatorOutcome
unfolding report_conflict append_refund_event commit
approve_pending c k row r operator reopened = do
  amount ← from_state (λ w. lift (validate_refund_intent row c w.db))
  let key = refund_key c k row.order_id r
  changed ←
      transition_refund_status r RefundStatus.pending_approval RefundStatus.approved
        (some (binding_of key amount))
  if not changed then report_conflict k r reopened else (do
    append_refund_approved key operator
    commit
    execute_payment_after_committed_intent key amount
    pure (outcome OperatorResultKind.approved k r RefundStatus.executed reopened))

unfoldable pub approve_refund : RefundId → String → Tx OperatorOutcome
unfolding require_refund_by_id customer_id_for_case approve_pending
approve_refund r operator = do
  first ← require_refund_by_id r
  let k = first.case_id
  c ← customer_id_for_case k
  lock_customer_for_update c
  reopened ← expire_due_refunds_for_customer c
  row ← require_refund_by_id r
  if same_refund_status row.status RefundStatus.pending_approval
      then approve_pending c k row r operator reopened
      else pure (outcome OperatorResultKind.conflict k r row.status reopened)

-- `reject_refund` once the row is seen to be pending, under the lock.
unfoldable pub reject_pending :
    CustomerId → CaseId → RefundRow → RefundId → String → String → List CaseId → Tx OperatorOutcome
unfolding report_conflict append_refund_event
reject_pending c k row r operator reason reopened = do
  let key = refund_key c k row.order_id r
  changed ←
      transition_refund_status r RefundStatus.pending_approval RefundStatus.rejected
        (some (binding_of key row.amount))
  if not changed then report_conflict k r reopened else (do
    append_refund_rejected key operator reason
    pure (outcome OperatorResultKind.rejected k r RefundStatus.rejected reopened))

unfoldable pub reject_refund : RefundId → String → String → Tx OperatorOutcome
unfolding require_refund_by_id customer_id_for_case reject_pending
reject_refund r operator reason = do
  first ← require_refund_by_id r
  let k = first.case_id
  c ← customer_id_for_case k
  lock_customer_for_update c
  reopened ← expire_due_refunds_for_customer c
  row ← require_refund_by_id r
  if same_refund_status row.status RefundStatus.pending_approval
      then reject_pending c k row r operator reason reopened
      else pure (outcome OperatorResultKind.conflict k r row.status reopened)
