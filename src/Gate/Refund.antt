-- ===== src/Gate/Refund.antt =====
-- gate/refund.py: the proposal transaction, and the payment after its commit.
use refundagent.Common.{
  ℕ, ◌+◌, ◌==◌, String, not, ◌||◌, Option, none, some, [], ◌∷◌, ◌++◌, any, is_some, if◌then◌else◌,
}
use refundagent.Common.Int.{ℤ}
use refundagent.Actions.{Action}
use refundagent.Config
use refundagent.Domain.Decimal.{Decimal, quantize_cents?}
use refundagent.Domain.Enums.{Actor, Channel, RefundStatus}
use refundagent.Domain.Payload.{Payload}
use refundagent.Domain.Result.{
  ok, err, runtime_error, integrity_error, invalid_operation, refund_not_found,
}
use refundagent.Domain.Texts.{CustomerId, CaseId, OrderId, RefundId, Instant}
use refundagent.Gate.Common.{append_action_denied, load_rule_context_for_case}
use refundagent.Policy.Authorisation.{spend}
use refundagent.Policy.Checks.Predicates.{open_refund_deny}
use refundagent.Policy.Evaluate.{Authorised, authorised, blocked, authorise}
use refundagent.Policy.Verdicts.{Verdict, allow, block, Blocking, RequireApproval}
use refundagent.Projection.Types.{StoredEvent}
use refundagent.Store.Adapters.{payment_refund}
use refundagent.Store.Append.{append_canonical_event}
use refundagent.Store.Queries.{
  find_refund_by_id, find_open_refund_for_order, live_on, lock_customer_for_update,
  validate_refund_relational_scope,
}
use refundagent.Store.Rows.{RefundRow, CaseRow}
use refundagent.Store.Session.{
  Tx, pure, raise, lift, gets, require, fail_if, now, fresh_id, committed, in_transaction,
  in_savepoint, on_integrity_error, ◌>>=◌, ◌>>◌,
}
use refundagent.Store.Transitions.{RefundIntentBinding, transition_refund_status}

-- The identifiers that every event and guarded update of one refund carries.
pub record RefundKey : Type 0 where
  pub customer_id : CustomerId
  pub case_id : CaseId
  pub order_id : OrderId
  pub refund_id : RefundId

abbrev pub binding_of : RefundKey → ℤ → RefundIntentBinding
binding_of key amount = record { order_id = key.order_id; case_id = key.case_id; amount = amount }

abbrev pub refund_key : CustomerId → CaseId → OrderId → RefundId → RefundKey
refund_key c k o r = record { customer_id = c; case_id = k; order_id = o; refund_id = r }

-- The seven appenders of refund events differ in actor, channel and payload.
unfoldable pub append_refund_event : RefundKey → Actor → Channel → Payload → Tx StoredEvent
append_refund_event key actor channel payload =
    append_canonical_event key.customer_id (some key.case_id) (some key.order_id) actor channel
      payload

abbrev pub append_refund_proposed : RefundKey → ℤ → Tx StoredEvent
append_refund_proposed key amount =
    append_refund_event key Actor.agent Channel.internal
      (Payload.refund_proposed key.refund_id amount)

abbrev pub append_refund_auto_approved : RefundKey → Tx StoredEvent
append_refund_auto_approved key =
    append_refund_event key Actor.system Channel.internal
      (Payload.refund_auto_approved key.refund_id)

abbrev pub append_refund_approved : RefundKey → String → Tx StoredEvent
append_refund_approved key operator =
    append_refund_event key Actor.operator Channel.operator_api
      (Payload.refund_approved key.refund_id operator)

abbrev pub append_refund_rejected : RefundKey → String → String → Tx StoredEvent
append_refund_rejected key operator reason =
    append_refund_event key Actor.operator Channel.operator_api
      (Payload.refund_rejected key.refund_id operator reason)

abbrev pub append_refund_approval_required : RefundKey → ℤ → String → Tx StoredEvent
append_refund_approval_required key amount rule =
    append_refund_event key Actor.system Channel.internal
      (Payload.refund_approval_required key.refund_id amount rule)

abbrev pub append_refund_executed : RefundKey → ℤ → ℕ → Tx StoredEvent
append_refund_executed key amount ref =
    append_refund_event key Actor.system Channel.internal
      (Payload.refund_executed key.refund_id amount ref)

-- `_record_refund_executed_after_payment`, whose caller holds the lock
unfoldable pub record_refund_executed_after_payment : RefundKey → ℤ → ℕ → Tx StoredEvent
unfolding append_refund_event
record_refund_executed_after_payment key amount ref = do
  found ← gets (λ w. find_refund_by_id key.refund_id w.db)
  require found refund_not_found
  changed ←
      transition_refund_status key.refund_id RefundStatus.approved RefundStatus.executed
        (some (binding_of key amount))
  fail_if (not changed) runtime_error
  append_refund_executed key amount ref

-- `execute_payment_after_committed_intent`
unfoldable pub execute_payment_after_committed_intent : RefundKey → ℤ → Tx StoredEvent
unfolding record_refund_executed_after_payment
execute_payment_after_committed_intent key amount = do
  ref ← payment_refund key.refund_id amount
  in_transaction (do
    lock_customer_for_update key.customer_id
    record_refund_executed_after_payment key amount ref)

-- `session.add(refund_row)` and the flush: the primary key, and the partial unique index
-- `uq_open_refund_per_order` on pending and approved rows.
unfoldable pub insert_refund : RefundRow → Tx (Unit {0})
insert_refund row w =
    if any (λ r. r.id == row.id) w.db.refunds || any (live_on row.order_id) w.db.refunds
    then (err integrity_error, w)
    else (ok tt, record w { db = record w.db { refunds = w.db.refunds ++ row ∷ [] } })

abbrev pub pending_row : RefundKey → ℤ → Instant → RefundRow
pending_row key amount at = record {
  id = key.refund_id;
  customer_id = key.customer_id;
  order_id = key.order_id;
  case_id = key.case_id;
  amount = amount;
  status = RefundStatus.pending_approval;
  approval_expires_at = some (at + Config.approval_ttl_seconds);
  created_at = at;
}

-- What `_persist_refund_proposal` returns: no refund, with a verdict that blocks; or a refund, which
-- was approved at once or waits for an operator.
pub data Proposal : Type 0 where
  no_refund : Blocking → Proposal
  auto_approved : RefundKey → ℤ → Proposal
  waiting : RequireApproval → Proposal

-- How policy let a proposal through: by a capability or to an operator.
pub data Clearance : Type 0 where
  by_capability : Clearance
  by_operator : RequireApproval → Clearance

-- The rest of `_persist_refund_proposal` after the row and its first event.
unfoldable pub settle_proposal : RefundKey → ℤ → Clearance → Tx Proposal
unfolding append_refund_event
settle_proposal key amount Clearance.by_capability = do
  changed ←
      transition_refund_status key.refund_id RefundStatus.pending_approval RefundStatus.approved
        (some (binding_of key amount))
  fail_if (not changed) runtime_error
  append_refund_auto_approved key
  pure (Proposal.auto_approved key amount)
settle_proposal key amount (Clearance.by_operator r) = do
  append_refund_approval_required key amount r.rule
  pure (Proposal.waiting r)

-- `_persist_refund_proposal` from the quantized amount on.
unfoldable pub insert_proposal : CustomerId → CaseId → OrderId → Decimal → Clearance → Tx Proposal
unfolding insert_refund settle_proposal
insert_proposal c k o amount clearance = do
  cents ← require (quantize_cents? amount) invalid_operation
  r ← fresh_id
  at ← now
  owner ← validate_refund_relational_scope k o
  fail_if (not (owner == c)) runtime_error
  let key = refund_key c k o r
  insert_refund (pending_row key cents at)
  append_refund_proposed key cents
  settle_proposal key cents clearance

-- `_persist_refund_proposal` after the verdict under the lock.
unfoldable pub follow_verdict :
    CustomerId → CaseId → Decimal → Option OrderId → Authorised → Tx Proposal
unfolding insert_proposal
follow_verdict c k amount o (blocked (Blocking.deny d)) = do
  append_action_denied c k (Action.propose_refund amount) d
  pure (Proposal.no_refund (Blocking.deny d))
follow_verdict c k amount o (blocked (Blocking.force_escalate f)) =
    pure (Proposal.no_refund (Blocking.force_escalate f))
follow_verdict c k amount o (blocked (Blocking.require_approval r)) = do
  order ← require o runtime_error
  insert_proposal c k order amount (Clearance.by_operator r)
follow_verdict c k amount o (authorised auth) = do
  order ← require o runtime_error
  lift (spend auth k (Action.propose_refund amount))
  insert_proposal c k order amount Clearance.by_capability

unfoldable pub persist_refund_proposal : CustomerId → CaseId → Decimal → Tx Proposal
unfolding follow_verdict
persist_refund_proposal c k amount = do
  lock_customer_for_update c
  loaded ← load_rule_context_for_case k
  let ctx = loaded.1
  verdict ← lift (authorise ctx (Action.propose_refund amount))
  follow_verdict c k amount ctx.case.linked_order_id verdict

-- The verdict of a race: another transaction holds the order's open refund.
unfoldable pub append_open_refund_race_denial : CustomerId → CaseId → Decimal → Tx Proposal
unfolding append_action_denied
append_open_refund_race_denial c k amount = do
  append_action_denied c k (Action.propose_refund amount) open_refund_deny
  pure (Proposal.no_refund (Blocking.deny open_refund_deny))

-- `except IntegrityError`, with the order that was linked before the lock.
unfoldable pub deny_race : CustomerId → CaseId → Decimal → Option OrderId → Tx Proposal
unfolding append_open_refund_race_denial
deny_race c k amount none = raise integrity_error
deny_race c k amount (some o) = do
  rival ← gets (λ w. find_open_refund_for_order o w.db)
  if is_some rival then append_open_refund_race_denial c k amount else raise integrity_error

-- `commit_refund_intent_before_payment`
unfoldable pub commit : Tx (Unit {0})
commit w = (ok tt, committed w)

-- The end of `execute_propose_refund`.
unfoldable pub conclude_proposal : Proposal → Tx Verdict
unfolding execute_payment_after_committed_intent commit
conclude_proposal (Proposal.no_refund b) = pure (block b)
conclude_proposal (Proposal.waiting r) = do commit; pure (block (Blocking.require_approval r))
conclude_proposal (Proposal.auto_approved key amount) = do
  commit
  execute_payment_after_committed_intent key amount
  pure allow

unfoldable pub execute_propose_refund : CaseRow → CaseId → Decimal → Tx Verdict
unfolding persist_refund_proposal deny_race conclude_proposal
execute_propose_refund case_row k amount = do
  loaded ← load_rule_context_for_case k
  let c = case_row.customer_id
  proposal ←
      on_integrity_error (in_savepoint (persist_refund_proposal c k amount))
        (deny_race c k amount loaded.1.case.linked_order_id)
  conclude_proposal proposal
