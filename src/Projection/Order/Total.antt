-- ===== src/Projection/Order/Total.antt =====
-- What an order's refunded total is, whichever order the events are read in.
use mathlib.Core.List.{foldl}
use refundagent.Common.{
  Bool, List, [], ◌∷◌, ◌≡◌, refl, ◌∙◌, ap, sym, arith, Bool-cases, inl, inr, sort_by, insert_by,
}
use refundagent.Common.Int.{ℤ, pos, ◌+ℤ◌, int_laws}
use refundagent.Domain.Payload.{Payload}
use refundagent.Projection.Order.{
  OrderFoldState, nothing_refunded, apply_order_payload, apply_order_event, order_scoped_events,
  fold_order, project_order_summary,
}
use refundagent.Projection.Types.{StoredEvent, OrderSeed, by_seq}

-- What one event adds to the refunded total.
abbrev pub executed_amount : Payload → ℤ
executed_amount (Payload.refund_executed r amount ref) = amount
executed_amount _ = pos 0

abbrev pub executed_sum : List StoredEvent → ℤ
executed_sum [] = pos 0
executed_sum (e ∷ es) = executed_amount e.payload +ℤ executed_sum es

add_swap : (a b c : ℤ) → a +ℤ (b +ℤ c) ≡ b +ℤ (a +ℤ c)
add_swap a b c = omega int_laws

add_assoc : (a b c : ℤ) → (a +ℤ b) +ℤ c ≡ a +ℤ (b +ℤ c)
add_assoc a b c = omega int_laws

add_zero : (a : ℤ) → a +ℤ pos 0 ≡ a
add_zero a = omega int_laws

zero_add : (a : ℤ) → pos 0 +ℤ a ≡ a
zero_add a = omega int_laws

executed_sum-insert_by :
    (le : StoredEvent → StoredEvent → Bool) (e : StoredEvent) (es : List StoredEvent)
    → executed_sum (insert_by le e es) ≡ executed_amount e.payload +ℤ executed_sum es
executed_sum-insert_by le e [] = refl
executed_sum-insert_by le e (x ∷ xs) = elim (Bool-cases (le e x)) [
  | inl before ↦ rw before refl
  | inr behind ↦ rw (behind, executed_sum-insert_by le e xs) (add_swap _ _ _)
]

executed_sum-sort_by :
    (le : StoredEvent → StoredEvent → Bool) (es : List StoredEvent)
    → executed_sum (sort_by le es) ≡ executed_sum es
executed_sum-sort_by le [] = refl
executed_sum-sort_by le (e ∷ es) =
    executed_sum-insert_by le e (sort_by le es)
    ∙ ap (λ z. executed_amount e.payload +ℤ z) (executed_sum-sort_by le es)

apply_total :
    (s : OrderFoldState) (p : Payload)
    → (apply_order_payload s p).refunded_total ≡ s.refunded_total +ℤ executed_amount p
unfolding apply_order_payload
apply_total s (Payload.refund_executed r amount ref) = refl
apply_total s p = ground (arith, add_zero s.refunded_total)

foldl_total :
    (s : OrderFoldState) (es : List StoredEvent)
    → (foldl apply_order_event s es).refunded_total ≡ s.refunded_total +ℤ executed_sum es
foldl_total s [] = sym (add_zero s.refunded_total)
foldl_total s (e ∷ es) =
    foldl_total (apply_order_event s e) es
    ∙ ap (λ z. z +ℤ executed_sum es) (apply_total s e.payload)
    ∙ add_assoc s.refunded_total (executed_amount e.payload) (executed_sum es)

-- An order's refunded total is the sum of the amounts of the executed refunds among its events, in
-- whichever order the log lists them.
pub refunded_total-executed_sum :
    (seed : OrderSeed) (events : List StoredEvent)
    → (project_order_summary seed events).refunded_total
      ≡ executed_sum (order_scoped_events seed.order_id seed.customer_id events)
unfolding project_order_summary fold_order
refunded_total-executed_sum seed events =
    foldl_total nothing_refunded _ ∙ zero_add _ ∙ executed_sum-sort_by by_seq _
