-- ===== src/Api/Routes.antt =====
-- api/routes.py: inbound email, the operator's routes and the confirmation of a verification. The
-- bodies are validated by pydantic before, and HTTP statuses are constructors of the answers.
use text.Mathlib.Text.{◌==◌ as str_eq}
use refundagent.Common.{
  ℕ, ◌==◌, String, Bool, true, false, not, ◌&&◌, ◌||◌, Option, none, some, is_some, List, [], ◌∷◌,
  ◌++◌, any, contains, filter, find?, if◌then◌else◌,
}
use refundagent.Agent.Boundary.{Environment}
use refundagent.Api.Queue.{case_is_open, drain_agent_loop_queue}
use refundagent.Domain.Enums.{Actor, Channel}
use refundagent.Domain.Payload.{Payload}
use refundagent.Domain.Result.{ok, err, integrity_error}
use refundagent.Domain.Texts.{CustomerId, CaseId, RefundId}
use refundagent.Gate.Common.{expire_due_refunds_for_customer}
use refundagent.Gate.Operations.{send_unknown_sender_reply}
use refundagent.Gate.Operator.{OperatorOutcome, OperatorResultKind, approve_refund, reject_refund}
use refundagent.Gate.Verification.{VerificationOutcome, confirm_verification}
use refundagent.Store.Append.{append_canonical_event}
use refundagent.Store.Queries.{
  find_case_for_customer_by_opening_message_id, list_active_pending_refunds,
}
use refundagent.Store.Rows.{CustomerRow, CaseRow, RefundRow, Database}
use refundagent.Store.Session.{
  Tx, from_state, pure, raise, gets, now, fresh_id, in_transaction, in_savepoint,
  on_integrity_error, ◌>>=◌, ◌>>◌,
}

pub record InboundEmail : Type 0 where
  pub envelope_from : String
  pub message_id : String
  pub subject : String
  pub body : String

-- `session.add(CaseRow(…))` and its flush, with the primary key and with one case for a customer's
-- opening message.
unfoldable pub insert_case : CaseRow → Tx (Unit {0})
insert_case row w =
    if any
      (λ r.
        r.id == row.id
        || (r.customer_id == row.customer_id && str_eq r.opening_message_id row.opening_message_id))
      w.db.cases
    then (err integrity_error, w)
    else (ok tt, record w { db = record w.db { cases = w.db.cases ++ row ∷ [] } })

-- `_create_case_for_inbound_email`
unfoldable pub create_case_for_inbound_email : CustomerId → InboundEmail → Tx CaseId
unfolding insert_case
create_case_for_inbound_email c mail = do
  k ← fresh_id
  at ← now
  insert_case
      (record { id = k; customer_id = c; opening_message_id = mail.message_id; created_at = at })
  append_canonical_event c (some k) none Actor.system Channel.internal
      (Payload.case_opened mail.message_id)
  append_canonical_event c (some k) none Actor.customer Channel.email
      (Payload.email_received mail.message_id mail.subject mail.body)
  pure k

abbrev with_openness : CustomerId → CaseRow → Tx (CaseId × Bool)
with_openness c row = do opened ← case_is_open row.id c; pure (row.id, opened)

-- `except IntegrityError`: the case that another request has created.
unfoldable pub raced_case : CustomerId → InboundEmail → Option CaseRow → Tx (CaseId × Bool)
raced_case c mail none = raise integrity_error
raced_case c mail (some row) = with_openness c row

abbrev created : CustomerId → InboundEmail → Tx (CaseId × Bool)
created c mail = do k ← create_case_for_inbound_email c mail; pure (k, true)

-- `_resolve_inbound_case` on the case that the message has opened before, if any.
unfoldable pub resolve_found : CustomerId → InboundEmail → Option CaseRow → Tx (CaseId × Bool)
unfolding create_case_for_inbound_email raced_case
resolve_found c mail (some row) = with_openness c row
resolve_found c mail none = on_integrity_error (in_savepoint (created c mail)) (
    from_state (λ w.
      raced_case c mail (find_case_for_customer_by_opening_message_id c mail.message_id w.db)))

unfoldable pub resolve_inbound_case : CustomerId → InboundEmail → Tx (CaseId × Bool)
unfolding resolve_found
resolve_inbound_case c mail = do
  found ← gets (λ w. find_case_for_customer_by_opening_message_id c mail.message_id w.db)
  resolve_found c mail found

pub data InboundAnswer : Type 0 where
  -- 202, an unknown sender
  unknown_sender : InboundAnswer
  -- 200, with the case
  for_case : CaseId → InboundAnswer

-- `resume_case_ids`: the reopened cases, and one more where it is not among them.
abbrev pub also : Bool → CaseId → List CaseId → List CaseId
also wanted k reopened =
    if wanted && not (contains reopened k) then reopened ++ k ∷ [] else reopened

-- The first transaction of `post_inbound_email` on the sender's row: the answer, and the cases to
-- resume in order.
unfoldable pub receive_from : InboundEmail → Option CustomerRow → Tx (InboundAnswer × List CaseId)
unfolding resolve_inbound_case send_unknown_sender_reply
receive_from mail none = do
  send_unknown_sender_reply mail.envelope_from
  pure (InboundAnswer.unknown_sender, [])
receive_from mail (some row) = do
  reopened ← expire_due_refunds_for_customer row.id
  resolved ← resolve_inbound_case row.id mail
  pure (InboundAnswer.for_case resolved.0, also resolved.1 resolved.0 reopened)

-- `find_customer_by_email`: the address is lowercased by `lower`, the library's `str.lower`.
unfoldable pub find_customer_by_email : (String → String) → String → Database → Option CustomerRow
find_customer_by_email lower email db = find? (λ r. str_eq r.email (lower email)) db.customers

-- How a route answers, once the queue is drained: `none` where the queue's fuel ran out.
pub data OperatorAnswer : Type 0 where
  -- 200
  acted : OperatorOutcome → OperatorAnswer
  -- 409
  conflict : OperatorOutcome → OperatorAnswer

pub data ConfirmAnswer : Type 0 where
  -- 404
  not_found : ConfirmAnswer
  -- 400: customer_id, issuing_case_id
  expired : CustomerId → CaseId → ConfirmAnswer
  -- 200: customer_id, resumed_case_ids
  confirmed : CustomerId → List CaseId → ConfirmAnswer

-- Which outcomes are answered with 409.
abbrev pub is_conflict : OperatorResultKind → Bool
is_conflict OperatorResultKind.conflict = true
is_conflict _ = false

abbrev pub operator_answer : OperatorOutcome → OperatorAnswer
operator_answer o = if is_conflict o.kind then OperatorAnswer.conflict o else OperatorAnswer.acted o

module _ (lower : String → String) (env : Environment) (loop_fuel queue_fuel : ℕ) where
  unfoldable pub drain : List CaseId → Tx (Option (List CaseId))
  drain ks = drain_agent_loop_queue env loop_fuel queue_fuel ks

  unfoldable pub post_inbound_email : InboundEmail → Tx InboundAnswer
  unfolding receive_from find_customer_by_email drain
  post_inbound_email mail = do
    received ←
        in_transaction (
          from_state
            (λ w. receive_from mail (find_customer_by_email lower mail.envelope_from w.db)))
    drain received.1
    pure received.0

  -- `_resume_cases_in_order`, for a conflict without the owning case.
  unfoldable pub resume_after : OperatorOutcome → Tx (Option (List CaseId))
  unfolding drain
  resume_after o = drain (also (not (is_conflict o.kind)) o.case_id o.reopened_case_ids)

  unfoldable pub post_operator_approve : RefundId → String → Tx OperatorAnswer
  unfolding resume_after
  post_operator_approve r operator = do
    o ← in_transaction (approve_refund r operator)
    resume_after o
    pure (operator_answer o)

  unfoldable pub post_operator_reject : RefundId → String → String → Tx OperatorAnswer
  unfolding resume_after
  post_operator_reject r operator reason = do
    o ← in_transaction (reject_refund r operator reason)
    resume_after o
    pure (operator_answer o)

  unfoldable pub answer_confirmation : VerificationOutcome → Tx ConfirmAnswer
  unfolding drain
  answer_confirmation VerificationOutcome.not_found = pure ConfirmAnswer.not_found
  answer_confirmation (VerificationOutcome.expired c k) = do
    drain (k ∷ [])
    pure (ConfirmAnswer.expired c k)
  answer_confirmation (VerificationOutcome.verified c ks) = do
    drain ks
    pure (ConfirmAnswer.confirmed c ks)

  unfoldable pub post_verification_confirm : ℕ → Tx ConfirmAnswer
  unfolding answer_confirmation
  post_verification_confirm token = do
    o ← in_transaction (confirm_verification token)
    answer_confirmation o

-- `get_operator_pending`, which writes nothing
unfoldable pub get_operator_pending : Tx (List RefundRow)
get_operator_pending = do
  at ← now
  gets (λ w. filter (λ row. is_some row.approval_expires_at) (list_active_pending_refunds at w.db))
