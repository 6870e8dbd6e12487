-- ===== src/Projection/Examples.antt =====
-- The theorems on the case's fold at a log of one event.
use refundagent.Common.{true, ◌↔◌, none, some, [], ◌∷◌, ◌≡◌}
use refundagent.Domain.Enums.{Actor, CaseStatus, Channel}
use refundagent.Domain.Payload.{Payload}
use refundagent.Projection.Case.{project_case_summary}
use refundagent.Common.Int.{pos}
use refundagent.Projection.Order.{project_order_summary, order_scoped_events}
use refundagent.Projection.Order.Total.{executed_sum, refunded_total-executed_sum}
use refundagent.Projection.Case.Closed.{closed_in, project-closed_iff}
use refundagent.Projection.Types.{StoredEvent}

abbrev opening : StoredEvent
opening = record {
  id = 3;
  customer_id = 1;
  case_id = some 2;
  order_id = none;
  seq = 1;
  actor = Actor.system;
  channel = Channel.internal;
  payload = Payload.case_opened "m1";
  created_at = 10;
}

abbrev listing : StoredEvent
listing = record {
  id = 4;
  customer_id = 1;
  case_id = some 2;
  order_id = none;
  seq = 2;
  actor = Actor.agent;
  channel = Channel.internal;
  payload = Payload.orders_listed (1001 ∷ []);
  created_at = 11;
}

abbrev paid : StoredEvent
paid = record listing {
  id = 5;
  order_id = some 1001;
  seq = 3;
  actor = Actor.system;
  payload = Payload.refund_executed 6 (pos 1250) 6;
}

refunded_total-executed_sum_example :
    (project_order_summary
      (record { order_id = 1001; customer_id = 1; total = pos 9000 })
      (paid ∷ listing ∷ [])).refunded_total
    ≡ executed_sum (order_scoped_events 1001 1 (paid ∷ listing ∷ []))
refunded_total-executed_sum_example =
    refunded_total-executed_sum (record { order_id = 1001; customer_id = 1; total = pos 9000 })
      (paid ∷ listing ∷ [])

project-closed_iff_example :
    ((project_case_summary 2 1 (opening ∷ listing ∷ []) 20).status ≡ CaseStatus.closed)
    ↔ (closed_in 2 1 (opening ∷ listing ∷ []) ≡ true)
project-closed_iff_example = project-closed_iff 2 1 (opening ∷ listing ∷ []) 20
