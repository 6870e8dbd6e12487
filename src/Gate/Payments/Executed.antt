-- ===== src/Gate/Payments/Executed.antt =====
-- gate/operator.py: what an approval that returns has done.
use refundagent.Common.{
  ℕ, String, ◌==◌, Bool, true, false, not, ◌&&◌, some, List, [], ◌∷◌, any, filter, length, ◌≡◌,
  refl, inl, inr, arith, Bool-cases,
}
use refundagent.Common.Int.{ℤ}
use refundagent.Domain.Enums.{RefundStatus, Actor, Channel}
use refundagent.Domain.Payload.{Payload}
use refundagent.Domain.Result.{Result, ok, err, runtime_error}
use refundagent.Domain.Texts.{CustomerId, CaseId, RefundId}
use refundagent.Gate.Operator.{
  OperatorResultKind, OperatorOutcome, approve_pending, approve_refund, report_conflict,
}
use refundagent.Gate.Refund.{
  RefundKey, binding_of, refund_key, append_refund_event, record_refund_executed_after_payment,
  execute_payment_after_committed_intent,
}
use refundagent.Projection.Types.{StoredEvent}
use refundagent.Store.Append.Effect.{Effect, append-Effect}
use refundagent.Store.Rows.{Database, RefundRow}
use refundagent.Store.Session.{Tx, World, fail_if, ◌>>=◌, ◌>>◌, settle, in_transaction}
use refundagent.Store.Transitions.{
  binds, selected, transition_refund_status, transition_permitted, allowed_refund_status_targets,
  update_refunds, update_rows,
}
use refundagent.Store.Delivers.{Delivers, Delivers-bind, Delivers-last, Delivers-if, Delivers-pure}

abbrev is_executed : RefundStatus → Bool
is_executed RefundStatus.executed = true
is_executed _ = false

-- A refund that has been paid.
abbrev pub IsExecuted : RefundId → Database → Type 0
IsExecuted r db = any (λ row. row.id == r && is_executed row.status) db.refunds ≡ true

-- The refund of `key` has been paid, for this order, this case and this amount.
abbrev pub IsPaid : RefundKey → ℤ → Database → Type 0
IsPaid key amount db =
    any
      (λ row.
        row.id == key.refund_id
        && (binds (some (binding_of key amount)) row && is_executed row.status))
      db.refunds
    ≡ true

executed_of_paid :
    (key : RefundKey) (amount : ℤ) (rows : List RefundRow)
    → any
        (λ row.
          row.id == key.refund_id
          && (binds (some (binding_of key amount)) row && is_executed row.status))
        rows
      ≡ true
    → any (λ row. row.id == key.refund_id && is_executed row.status) rows ≡ true
executed_of_paid key amount [] h = h
executed_of_paid key amount (row ∷ rows) h = ground (arith, executed_of_paid key amount rows)

module _ (key : RefundKey) (amount : ℤ) where
  settled-delivers :
      {A : Type 0} (out : Result A) (w : World) (a : A)
      → ((x : A) → out ≡ ok x → IsPaid key amount w.db)
      → (settle out w).0 ≡ ok a
      → IsPaid key amount (settle out w).1.durable
  settled-delivers (ok x) w a k h = k x refl
  settled-delivers (err e) w a k h = cc

  Delivers-in_transaction :
      {A : Type 0} (m : Tx A)
      → Delivers (λ _ w. IsPaid key amount w.db) m
      → Delivers (λ _ w. IsPaid key amount w.durable) (in_transaction m)
  unfolding in_transaction
  Delivers-in_transaction m k = record {
    at = λ w a h. let (out, w') = m w in settled-delivers out w' a (k.at w) h;
  }

  abbrev chosen : RefundRow → Bool
  chosen = selected key.refund_id RefundStatus.approved (some (binding_of key amount))

  chosen-binds :
      (row : RefundRow)
      → chosen row ≡ true
      → (row.id == key.refund_id ≡ true) × (binds (some (binding_of key amount)) row ≡ true)
  unfolding selected
  chosen-binds row h = (ground arith, ground arith)

  updated-IsPaid :
      (rows : List RefundRow)
      → (length (filter chosen rows) == 1) ≡ true
      → any
          (λ row.
            row.id == key.refund_id
            && (binds (some (binding_of key amount)) row && is_executed row.status))
          (update_rows chosen RefundStatus.executed rows)
        ≡ true
  unfolding update_rows
  updated-IsPaid [] h = ground arith
  updated-IsPaid (row ∷ rows) h = elim (Bool-cases (chosen row)) [
    | inl hit ↦ (let (same, bound) = chosen-binds row hit in rw (hit, same, bound) refl)
    | inr miss ↦ rw miss (ground (arith, updated-IsPaid rows, miss))
  ]

module _ (key : RefundKey) (amount : ℤ) where
  event-delivers :
      (a : Actor) (ch : Channel) (p : Payload) (w : World) (out : Result StoredEvent × World)
      (e : StoredEvent)
      → IsPaid key amount w.db
      → Effect key.customer_id (some key.case_id) (some key.order_id) a ch p w out
      → out.0 ≡ ok e
      → IsPaid key amount out.1.db
  event-delivers a ch p w (err x, w') e h same returned = cc
  event-delivers a ch p w (ok x, w') e h (_, same, _, _, _) returned = rw same h

  -- The update of an approved refund to executed, and its event.
  Delivers-update :
      (a : Actor) (ch : Channel) (p : Payload)
      → Delivers
          (λ _ w. IsPaid key amount w.db)
          (transition_refund_status key.refund_id RefundStatus.approved RefundStatus.executed
              (some (binding_of key amount))
            >>= λ changed. fail_if (not changed) runtime_error >> append_refund_event key a ch p)
  unfolding transition_refund_status transition_permitted allowed_refund_status_targets
      update_refunds append_refund_event ◌>>=◌
  Delivers-update a ch p = record {
    at = λ w e h.
        elim (Bool-cases (
          length (
            filter (selected key.refund_id RefundStatus.approved (some (binding_of key amount)))
              w.db.refunds)
          == 1)) [
            | inl one ↦ rw one (
                event-delivers a ch p
                  (record w {
                    db = record w.db {
                      refunds =
                          update_rows
                            (selected key.refund_id RefundStatus.approved
                              (some (binding_of key amount)))
                            RefundStatus.executed w.db.refunds;
                    };
                  })
                  _ e (updated-IsPaid key amount w.db.refunds one)
                  (append-Effect key.customer_id (some key.case_id) (some key.order_id) a ch p _)
                  (rw one at h))
            | inr other ↦ (let bad = rw other at h in cc)
          ];
  }

  Delivers-IsPaid :
      (ref : ℕ)
      → Delivers
          (λ _ w. IsPaid key amount w.db)
          (record_refund_executed_after_payment key amount ref)
  unfolding record_refund_executed_after_payment
  Delivers-IsPaid ref = Delivers-bind _ _ (λ found. Delivers-bind _ _ (λ row.
      Delivers-update Actor.system Channel.internal
        (Payload.refund_executed key.refund_id amount ref)))

  pub Delivers-pay :
      Delivers
        (λ _ w. IsPaid key amount w.durable)
        (execute_payment_after_committed_intent key amount)
  unfolding execute_payment_after_committed_intent
  Delivers-pay =
      Delivers-bind _ _ (λ ref.
        Delivers-in_transaction key amount _ (Delivers-bind _ _ (λ row. Delivers-IsPaid ref)))

-- An outcome that says approved stands for a refund that is committed as executed.
abbrev pub IsHonest : RefundId → OperatorOutcome → World → Type 0
IsHonest r o w = o.kind ≡ OperatorResultKind.approved → IsExecuted r w.durable

Delivers-approve_pending :
    (c : CustomerId) (k : CaseId) (row : RefundRow) (r : RefundId) (operator : String)
    (reopened : List CaseId)
    → Delivers (IsHonest r) (approve_pending c k row r operator reopened)
unfolding approve_pending report_conflict
Delivers-approve_pending c k row r operator reopened = Delivers-bind _ _ (λ amount.
    Delivers-bind _ _ (λ changed.
      Delivers-if (not changed) _ _ (Delivers-bind _ _ (λ found. Delivers-pure _ (λ w h. cc))) (
        Delivers-bind _ _ (λ e. Delivers-bind _ _ (λ done.
          Delivers-last (λ w. IsPaid (refund_key c k row.order_id r) amount w.durable) _ _
            (λ w h _. executed_of_paid (refund_key c k row.order_id r) amount w.durable.refunds h)
            (Delivers-pay (refund_key c k row.order_id r) amount))))))

Delivers-approve :
    (r : RefundId) (operator : String) → Delivers (IsHonest r) (approve_refund r operator)
unfolding approve_refund
Delivers-approve r operator = Delivers-bind _ _ (λ first. Delivers-bind _ _ (λ c.
    Delivers-bind _ _ (λ customer. Delivers-bind _ _ (λ reopened. Delivers-bind _ _ (λ row.
      Delivers-if _ _ _ (Delivers-approve_pending c first.case_id row r operator reopened)
        (Delivers-pure _ (λ w h. cc)))))))

-- When an operator's approval returns with an outcome that says approved, a refund row with that
-- id is committed as executed.
pub approve_refund-IsExecuted :
    (r : RefundId) (operator : String) (o : OperatorOutcome) (w : World)
    → (approve_refund r operator w).0 ≡ ok o
    → o.kind ≡ OperatorResultKind.approved
    → IsExecuted r (approve_refund r operator w).1.durable
approve_refund-IsExecuted r operator o w h approved =
    (Delivers-approve r operator).at w o h approved
