-- ===== src/Gate/Payments/Approval.antt =====
-- gate/operator.py: what an operator's decision pays.
use refundagent.Common.{
  String, ◌==◌, not, some, List, filter, length, refl, inl, inr, Bool-cases, ap, if◌then◌else◌,
}
use refundagent.Common.Int.{ℤ}
use refundagent.Domain.Enums.{RefundStatus, Actor, Channel}
use refundagent.Domain.Payload.{Payload}
use refundagent.Domain.Result.{Result, ok, err}
use refundagent.Domain.Texts.{CustomerId, CaseId, RefundId}
use refundagent.Gate.Keeps.{Keeps-expire}
use refundagent.Gate.Keeps.Operations.{Keeps-customer_of, Keeps-conflict}
use refundagent.Gate.Common.{expire_due_refunds_for_customer}
use refundagent.Gate.Operator.{
  customer_id_for_case, approve_pending, approve_refund, report_conflict,
}
use refundagent.Gate.Payments.{
  Accounted, Accounts, Accounts-bind, account_rules, IsQuiet, commit_and_pay,
}
use refundagent.Gate.Refund.{
  RefundKey, refund_key, binding_of, commit, append_refund_event,
  execute_payment_after_committed_intent,
}
use refundagent.Projection.Types.{StoredEvent}
use refundagent.Store.Append.Effect.{Effect, append-Effect}
use refundagent.Store.Intent.{validate_refund_intent}
use refundagent.Store.Keeps.{keeps_rules}
use refundagent.Store.Keeps.Stable.{quiet}
use refundagent.Store.Keeps.Rules.{store_rules}
use refundagent.Store.Queries.{lock_customer_for_update, require_refund_by_id}
use refundagent.Store.Rows.{RefundRow}
use refundagent.Store.Session.{from_state, lift, Tx, World, RefundCall, pure, ◌>>=◌, ◌>>◌, after}
use refundagent.Store.Transitions.{
  transition_refund_status, transition_permitted, allowed_refund_status_targets, selected,
  update_refunds,
}
use refundagent.Gate.Backing.{IsBacked, approved-IsBacked}

module _ (key : RefundKey) (amount : ℤ) where
  abbrev call : RefundCall
  call = record { idempotency_key = key.refund_id; amount = amount }

  -- An event is appended, and then the payment is made.
  module _ {B : Type 0} (b : B) (a : Actor) (ch : Channel) (p : Payload) where
    abbrev pay_next : Tx B
    pay_next = commit >> (execute_payment_after_committed_intent key amount >>= λ _. pure b)

    paid_after_event :
        (w : World) (out : Result StoredEvent × World)
        → IsBacked call w.db
        → Effect key.customer_id (some key.case_id) (some key.order_id) a ch p w out
        → Accounted w.outside.calls (after (λ _. pay_next) out.0 out.1).1
    paid_after_event w (err x, w') h (inl same) = inl (ap (λ v. v.outside.calls) same)
    paid_after_event w (err x, w') h (inr (same, _, _)) = inl (ap (λ v. v.outside.calls) same)
    paid_after_event w (ok e, w') h (_, same, _, _, _) = rw same (commit_and_pay key amount b _ h)

    pub event_and_pay :
        (w : World)
        → IsBacked call w.db
        → Accounted w.outside.calls ((append_refund_event key a ch p >> pay_next) w).1
    unfolding append_refund_event ◌>>=◌
    event_and_pay w h =
        paid_after_event w _ h
          (append-Effect key.customer_id (some key.case_id) (some key.order_id) a ch p w)

    -- The update that approves the refund, then its event and its payment.
    pub Accounts-moved :
        (other : Tx B)
        → IsQuiet other
        → Accounts (
            transition_refund_status key.refund_id RefundStatus.pending_approval
              RefundStatus.approved
              (some (binding_of key amount))
            >>= λ changed.
                if not changed then other else (append_refund_event key a ch p >> pay_next))
    unfolding transition_refund_status transition_permitted allowed_refund_status_targets
        update_refunds ◌>>=◌
    Accounts-moved other q = record {
      at = λ w.
          elim (Bool-cases (
            length (
              filter
                (selected key.refund_id RefundStatus.pending_approval
                  (some (binding_of key amount)))
                w.db.refunds)
            == 1)) [
              | inl one ↦ rw one (
                  event_and_pay _
                    (approved-IsBacked key.refund_id (binding_of key amount) w.db.refunds one))
              | inr none_or_more ↦
                  rw none_or_more (inl (ap (λ o. o.calls) ((q w.outside).at _ refl)))
            ];
    }

conflict-IsQuiet : (k : CaseId) (r : RefundId) (ks : List CaseId) → IsQuiet (report_conflict k r ks)
conflict-IsQuiet k r ks o = Keeps-conflict (quiet o) k r ks

expire-IsQuiet : (c : CustomerId) → IsQuiet (expire_due_refunds_for_customer c)
expire-IsQuiet c o = Keeps-expire (quiet o) c

owner-IsQuiet : (k : CaseId) → IsQuiet (customer_id_for_case k)
owner-IsQuiet k o = Keeps-customer_of (quiet o) k

evidence-IsQuiet :
    (row : RefundRow) (c : CustomerId)
    → IsQuiet (from_state (λ w. lift (validate_refund_intent row c w.db)))
evidence-IsQuiet row c o = search keeps_rules

lock-IsQuiet : (c : CustomerId) → IsQuiet (lock_customer_for_update c)
lock-IsQuiet c o = search store_rules

row-IsQuiet : (r : RefundId) → IsQuiet (require_refund_by_id r)
row-IsQuiet r o = search store_rules

pure-IsQuiet : {A : Type 0} (a : A) → IsQuiet (pure a)
pure-IsQuiet a o = search keeps_rules

Accounts-approve_pending :
    (c : CustomerId) (k : CaseId) (row : RefundRow) (r : RefundId) (operator : String)
    (reopened : List CaseId)
    → Accounts (approve_pending c k row r operator reopened)
unfolding approve_pending commit
Accounts-approve_pending c k row r operator reopened =
    Accounts-bind _ _ (evidence-IsQuiet row c) (λ amount.
      Accounts-moved (refund_key c k row.order_id r) amount _ Actor.operator Channel.operator_api
        (Payload.refund_approved r operator) (report_conflict k r reopened)
        (conflict-IsQuiet k r reopened))

-- An operator's approval makes no call of the payment provider, or one, and then the refund with
-- the call's key is approved or executed for the call's amount, in the session's database and as
-- committed; this holds whether the approval returns or raises.
pub Accounts-approve : (r : RefundId) (operator : String) → Accounts (approve_refund r operator)
unfolding approve_refund
Accounts-approve r operator =
    search
      (
        account_rules, row-IsQuiet, owner-IsQuiet, lock-IsQuiet, expire-IsQuiet,
        Accounts-approve_pending, pure-IsQuiet,
      )
      depth 20
