-- ===== src/Api/Examples/Decisions.antt =====
-- The theorems on closed cases, the queue, verification and approval, at the same shop.
use refundagent.Common.{IsDistinct, ◌≡◌, none, some, [], ◌∷◌, refl}
use refundagent.Projection.Case.{
  project_case_summary, resolve_case_status, case_fold_events, in_case_fold, apply_payload,
}
use refundagent.Store.Queries.{
  load_customer_events, require_refund_by_id, lock_customer_for_update, due_for_expiry,
  load_case_events, validate_event_relational_scope,
}
use refundagent.Api.Closed.{serve_all-closed}
use refundagent.Gate.Verification.{confirm_verification, find_verification_request_by_token}
use refundagent.Gate.Verification.Effect.{IsConfirmed, confirm-IsConfirmed}
use refundagent.Api.Queue.{drain_agent_loop_queue}
use refundagent.Api.Queue.Once.{drain-IsDistinct}
use refundagent.Domain.Result.{ok}
use refundagent.Api.Server.{serve_all}
use refundagent.Domain.Enums.{Actor, CaseOutcome, CaseStatus, RefundStatus}
use refundagent.Domain.Payload.{Payload}
use refundagent.Gate.Operator.{
  OperatorOutcome, OperatorResultKind, outcome, approve_refund, customer_id_for_case,
}
use refundagent.Gate.Payments.Executed.{IsExecuted, approve_refund-IsExecuted}
use refundagent.Gate.Common.{expire_due_refunds_for_customer, due_refund_rows, due_row, expire_rows}
use refundagent.Store.Intent.{validate_refund_intent, load_canonical_refund_proposed_event}
use refundagent.Store.Transitions.{
  transition_refund_status, transition_permitted, allowed_refund_status_targets, selected,
  update_refunds, update_rows,
}
use refundagent.Store.Adapters.{payment_refund}
use refundagent.Domain.Events.{build_canonical_event}
use refundagent.Gate.Refund.{
  execute_payment_after_committed_intent, record_refund_executed_after_payment,
}
use refundagent.Projection.Types.{StoredEvent}
use refundagent.Store.Append.{append_canonical_event, allocate_customer_event_seq, add_event}
use refundagent.Store.Session.{World, ◌>>=◌, in_transaction}
use refundagent.Agent.Loop.{
  run_agent_loop, load_loop_context, stops_in_status, after_entry, accumulate_peer_case_ids,
}
use refundagent.Agent.Loop.Peers.{ArePeers, run_agent_loop-ArePeers}
use refundagent.Api.Examples.{proposed, shop, start, asking, same_case, day}

abbrev closing : StoredEvent
closing = record proposed {
  id = 4;
  order_id = none;
  seq = 2;
  actor = Actor.system;
  payload = Payload.case_closed CaseOutcome.finished none;
}

-- The shop after its only case was closed.
abbrev closed : World
closed = record start { db = record shop { events = proposed ∷ closing ∷ [] } }

-- The case is closed, case 7 has no row, and the second entry of case 1 gets no turn.
two_turns : (drain_agent_loop_queue asking 14 5 (1 ∷ 7 ∷ 1 ∷ []) closed).0 ≡ ok (some (1 ∷ 7 ∷ []))
unfolding drain_agent_loop_queue ◌>>=◌ load_customer_events project_case_summary resolve_case_status
    case_fold_events in_case_fold apply_payload
two_turns = refl

drain-IsDistinct_example : IsDistinct (1 ∷ 7 ∷ [])
drain-IsDistinct_example =
    drain-IsDistinct asking 14 5 (1 ∷ 7 ∷ 1 ∷ []) (1 ∷ 7 ∷ []) closed two_turns

abbrev settled : World
settled = record closed { durable = closed.db }

shown_closed :
    (project_case_summary 1 1 (load_customer_events 1 settled.durable) 120).status
    ≡ CaseStatus.closed
unfolding load_customer_events project_case_summary resolve_case_status case_fold_events
    in_case_fold apply_payload
shown_closed = refl

serve_all-closed_example :
    ((project_case_summary 1 1
        (load_customer_events 1 (serve_all same_case asking 2 2 day settled).db)
        500).status
      ≡ CaseStatus.closed)
    × ((project_case_summary 1 1
          (load_customer_events 1 (serve_all same_case asking 2 2 day settled).durable)
          500).status
        ≡ CaseStatus.closed)
serve_all-closed_example =
    serve_all-closed same_case asking 2 2 day settled 1 1 120 500 refl shown_closed

-- A token that customer 1 was sent and that expires at 200, at 120.
abbrev asked : StoredEvent
asked = record proposed {
  id = 5;
  order_id = none;
  seq = 2;
  payload = Payload.verification_requested 77 200;
}

abbrev unverified : World
unverified = record start { db = record shop { events = proposed ∷ asked ∷ [] } }

confirm-IsConfirmed_example :
    IsConfirmed
      (find_verification_request_by_token 77 unverified.db)
      unverified
      (confirm_verification 77 unverified)
confirm-IsConfirmed_example = confirm-IsConfirmed 77 unverified

abbrev approved_outcome : OperatorOutcome
approved_outcome = outcome OperatorResultKind.approved 1 2 RefundStatus.executed []

approves : (approve_refund 2 "op" start).0 ≡ ok approved_outcome
unfolding approve_refund require_refund_by_id customer_id_for_case lock_customer_for_update
    expire_due_refunds_for_customer due_refund_rows due_row due_for_expiry expire_rows
    load_customer_events validate_refund_intent load_canonical_refund_proposed_event
    load_case_events transition_refund_status transition_permitted allowed_refund_status_targets
    selected update_refunds update_rows append_canonical_event validate_event_relational_scope
    build_canonical_event allocate_customer_event_seq add_event payment_refund in_transaction
    record_refund_executed_after_payment execute_payment_after_committed_intent ◌>>=◌
approves = refl

approve_refund-IsExecuted_example : IsExecuted 2 (approve_refund 2 "op" start).1.durable
approve_refund-IsExecuted_example =
    approve_refund-IsExecuted 2 "op" approved_outcome start approves refl

-- The loop of a closed case returns at its entry.
returns : (run_agent_loop asking 1 5 [] closed).0 ≡ ok (some [])
unfolding run_agent_loop expire_due_refunds_for_customer lock_customer_for_update
    load_customer_events due_refund_rows due_row due_for_expiry expire_rows load_loop_context
    project_case_summary resolve_case_status case_fold_events in_case_fold apply_payload
    stops_in_status after_entry accumulate_peer_case_ids ◌>>=◌
returns = refl

run_agent_loop-ArePeers_example : ArePeers 1 []
run_agent_loop-ArePeers_example = run_agent_loop-ArePeers asking 1 5 [] closed returns
