-- ===== src/Gate/Backing.antt =====
-- gate/refund.py against the refund table: the rows that stand behind a payment call, and that no
-- write of the database takes such a row away.
use refundagent.Common.{
  ◌==◌, Bool, true, false, ◌&&◌, some, List, [], ◌∷◌, ◌++◌, any, filter, length, ◌≡◌, refl, inl,
  inr, arith, Bool-cases,
}
use refundagent.Common.Int.{eq_ℤ}
use refundagent.Domain.Enums.{RefundStatus}
use refundagent.Domain.Texts.{RefundId}
use refundagent.Store.Keeps.Stable.{WritesDatabase}
use refundagent.Store.Rows.{Database, RefundRow}
use refundagent.Store.Session.{RefundCall}
use refundagent.Store.Transitions.{
  RefundIntentBinding, selected, transition_permitted, allowed_refund_status_targets, update_rows,
  moved,
}

abbrev pub cleared : RefundStatus → Bool
cleared RefundStatus.approved = true
cleared RefundStatus.executed = true
cleared _ = false

-- A row that is approved, or paid, for the amount of the call.
abbrev pub backs : RefundCall → RefundRow → Bool
backs call row =
    row.id == call.idempotency_key && (eq_ℤ row.amount call.amount && cleared row.status)

abbrev pub IsBacked : RefundCall → Database → Type 0
IsBacked call db = any (backs call) db.refunds ≡ true

-- An approved refund is only ever executed.
stays_cleared :
    (from to : RefundStatus)
    → transition_permitted from to ≡ true
    → cleared from ≡ true
    → cleared to ≡ true
unfolding transition_permitted allowed_refund_status_targets
stays_cleared from to h k = ground arith

any-append :
    (call : RefundCall) (rows : List RefundRow) (row : RefundRow)
    → any (backs call) rows ≡ true
    → any (backs call) (rows ++ row ∷ []) ≡ true
any-append call [] row h = ground arith
any-append call (x ∷ xs) row h = ground (arith, any-append call xs row)

module _ (from to : RefundStatus) (sel : RefundRow → Bool)
    (permitted : transition_permitted from to ≡ true)
    (selects : (row : RefundRow) → sel row ≡ true → row.status ≡ from) (call : RefundCall) where
  still_backs :
      (row : RefundRow)
      → row.status ≡ from
      → backs call row ≡ true
      → backs call (moved to row) ≡ true
  still_backs row same h = ground (arith, stays_cleared from to permitted)

  any-update :
      (rows : List RefundRow)
      → any (backs call) rows ≡ true
      → any (backs call) (update_rows sel to rows) ≡ true
  unfolding update_rows
  any-update [] h = h
  any-update (row ∷ rows) h = elim (Bool-cases (sel row)) [
    | inl hit ↦ rw hit (ground (arith, any-update rows, still_backs row (selects row hit)))
    | inr miss ↦ rw miss (ground (arith, any-update rows))
  ]

pub IsBacked-WritesDatabase : (call : RefundCall) → WritesDatabase (IsBacked call)
IsBacked-WritesDatabase call = record {
  on_event = λ c k o a ch p at id db catalogue h. h;
  on_number = λ c db h. h;
  on_status = λ from to sel db permitted selects h.
      any-update from to sel permitted selects call db.refunds h;
  on_refund = λ row db pending fresh free h. any-append call db.refunds row h;
  on_case = λ row db h. h;
}

selected-backs :
    (r : RefundId) (b : RefundIntentBinding) (row : RefundRow)
    → selected r RefundStatus.pending_approval (some b) row ≡ true
    → backs (record { idempotency_key = r; amount = b.amount }) (moved RefundStatus.approved row)
      ≡ true
unfolding selected
selected-backs r b row h = ground arith

-- An update that approves a row backs its payment.
pub approved-IsBacked :
    (r : RefundId) (b : RefundIntentBinding) (rows : List RefundRow)
    → (length (filter (selected r RefundStatus.pending_approval (some b)) rows) == 1) ≡ true
    → any
        (backs (record { idempotency_key = r; amount = b.amount }))
        (update_rows (selected r RefundStatus.pending_approval (some b)) RefundStatus.approved rows)
      ≡ true
unfolding update_rows selected
approved-IsBacked r b [] h = ground arith
approved-IsBacked r b (row ∷ rows) h =
    elim (Bool-cases (selected r RefundStatus.pending_approval (some b) row)) [
      | inl hit ↦ rw (hit, selected-backs r b row hit) refl
      | inr miss ↦ rw miss (ground (arith, approved-IsBacked r b rows, miss))
    ]
