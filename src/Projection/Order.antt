-- ===== src/Projection/Order.antt =====
-- projections/order.py: the refund history of an order across all cases.
pub mod Total
use mathlib.Core.List.{foldl}
use refundagent.Common.{◌==◌, ◌=?◌, Bool, true, false, ◌&&◌, List, filter, sort_by}
use refundagent.Common.Int.{ℤ, pos, ◌+ℤ◌, ◌-ℤ◌}
use refundagent.Domain.Payload.{Payload}
use refundagent.Domain.Texts.{CustomerId, OrderId}
use refundagent.Projection.Types.{StoredEvent, OrderSeed, by_seq}

pub record OrderSummary : Type 0 where
  pub order_id : OrderId
  pub customer_id : CustomerId
  pub total : ℤ
  pub refunded_total : ℤ
  pub has_open_refund : Bool

-- The property of the same name.
abbrev pub refundable_remainder : OrderSummary → ℤ
refundable_remainder o = o.total -ℤ o.refunded_total

-- The test of `_order_scoped_events`.
unfoldable pub in_order_fold : OrderId → CustomerId → StoredEvent → Bool
in_order_fold order customer e = e.order_id =? order && e.customer_id == customer

unfoldable pub order_scoped_events : OrderId → CustomerId → List StoredEvent → List StoredEvent
order_scoped_events order customer events = filter (in_order_fold order customer) events

-- The two variables of the loop in `project_order_summary`.
pub record OrderFoldState : Type 0 where
  pub refunded_total : ℤ
  pub has_open_refund : Bool

abbrev pub nothing_refunded : OrderFoldState
nothing_refunded = record { refunded_total = pos 0; has_open_refund = false }

-- The body of the loop.
unfoldable pub apply_order_payload : OrderFoldState → Payload → OrderFoldState
apply_order_payload s (Payload.refund_proposed r amount) = record s { has_open_refund = true }
apply_order_payload s (Payload.refund_executed r amount ref) = record {
  refunded_total = s.refunded_total +ℤ amount;
  has_open_refund = false;
}
apply_order_payload s (Payload.refund_rejected r operator reason) = record s {
  has_open_refund = false;
}
apply_order_payload s (Payload.refund_expired r) = record s { has_open_refund = false }
apply_order_payload s _ = s

abbrev pub apply_order_event : OrderFoldState → StoredEvent → OrderFoldState
apply_order_event s e = apply_order_payload s e.payload

unfoldable pub fold_order : OrderId → CustomerId → List StoredEvent → OrderFoldState
fold_order order customer events =
    foldl apply_order_event nothing_refunded
      (sort_by by_seq (order_scoped_events order customer events))

unfoldable pub project_order_summary : OrderSeed → List StoredEvent → OrderSummary
unfolding fold_order
project_order_summary seed events =
    let s = fold_order seed.order_id seed.customer_id events in
    record {
      order_id = seed.order_id;
      customer_id = seed.customer_id;
      total = seed.total;
      refunded_total = s.refunded_total;
      has_open_refund = s.has_open_refund;
    }
