-- ===== src/Api/Examples.antt =====
-- The theorems on all requests at a small shop: one customer with one order, and one case whose
-- refund waits for an operator.
mod Decisions
mod Ends
mod Proposals
mod Start
use refundagent.Common.{◌≡◌, String, none, some, false, List, [], ◌∷◌, refl, arith}
use refundagent.Common.Int.{pos, negsuc}
use refundagent.Actions.{Action}
use refundagent.Agent.Boundary.{Environment, ModelReply, Decoded}
use refundagent.Api.Log.{
  IsNumbered, IsCatalogued, Extends, serve_all-IsNumbered, serve_all-IsCatalogued,
  serve_all-Extends,
}
use refundagent.Api.Payments.{IsPaidFor, serve_all-IsPaidFor}
use refundagent.Projection.Case.{
  project_case_summary, resolve_case_status, case_fold_events, in_case_fold, apply_payload,
}
use refundagent.Store.Queries.{
  load_customer_events, require_refund_by_id, lock_customer_for_update, due_for_expiry,
  load_case_events, validate_event_relational_scope,
}
use refundagent.Api.Closed.{serve_all-closed}
use refundagent.Gate.Verification.{confirm_verification, find_verification_request_by_token}
use refundagent.Gate.Verification.Effect.{IsConfirmed, confirm-IsConfirmed}
use refundagent.Api.Queue.{drain_agent_loop_queue}
use refundagent.Domain.Result.{ok}
use refundagent.Api.Refunds.{HasOneLive, Succeed, serve_all-HasOneLive, serve_all-Succeed}
use refundagent.Api.Routes.{InboundEmail}
use refundagent.Api.Server.{Request, serve_all}
use refundagent.Domain.Decimal.{Decimal}
use refundagent.Domain.Enums.{Actor, CaseOutcome, CaseStatus, Channel, OrderStatus, RefundStatus}
use refundagent.Domain.Payload.{Payload}
use refundagent.Gate.Operator.{
  OperatorOutcome, OperatorResultKind, outcome, approve_refund, customer_id_for_case,
}
use refundagent.Gate.Payments.Executed.{IsExecuted, approve_refund-IsExecuted}
use refundagent.Gate.Common.{expire_due_refunds_for_customer, due_refund_rows, due_row, expire_rows}
use refundagent.Store.Intent.{validate_refund_intent, load_canonical_refund_proposed_event}
use refundagent.Store.Transitions.{
  transition_refund_status, transition_permitted, allowed_refund_status_targets, selected,
  update_refunds, update_rows,
}
use refundagent.Store.Adapters.{payment_refund}
use refundagent.Domain.Events.{build_canonical_event}
use refundagent.Gate.Payments.{Accounts}
use refundagent.Gate.Payments.Approval.{Accounts-approve}
use refundagent.Gate.Payments.Proposal.{Accounts-propose}
use refundagent.Gate.Refund.{
  execute_payment_after_committed_intent, record_refund_executed_after_payment,
  execute_propose_refund,
}
use refundagent.Projection.Types.{StoredEvent}
use refundagent.Store.Append.Effect.{Effect, append-Effect}
use refundagent.Store.Append.{append_canonical_event, allocate_customer_event_seq, add_event}
use refundagent.Store.Keeps.Stable.{Both}
use refundagent.Store.Rows.{Database, CaseRow, RefundRow}
use refundagent.Store.Session.{World, ◌>>=◌, in_transaction}

abbrev pub case_row : CaseRow
case_row = record { id = 1; customer_id = 1; opening_message_id = "m1"; created_at = 100 }

abbrev pub refund_row : RefundRow
refund_row = record {
  id = 2;
  customer_id = 1;
  order_id = 1001;
  case_id = 1;
  amount = pos 60000;
  status = RefundStatus.pending_approval;
  approval_expires_at = some 5000;
  created_at = 110;
}

abbrev pub proposed : StoredEvent
proposed = record {
  id = 3;
  customer_id = 1;
  case_id = some 1;
  order_id = some 1001;
  seq = 1;
  actor = Actor.agent;
  channel = Channel.internal;
  payload = Payload.refund_proposed 2 (pos 60000);
  created_at = 110;
}

abbrev pub shop : Database
shop = record {
  customers = (record { id = 1; email = "a@example.com"; name = "A" }) ∷ [];
  orders =
      (record {
        id = 1001;
        customer_id = 1;
        item = "lamp";
        total = pos 90000;
        status = OrderStatus.delivered;
      })
      ∷ [];
  cases = case_row ∷ [];
  sequences = (1, 1) ∷ [];
  events = proposed ∷ [];
  refunds = refund_row ∷ [];
}

-- The clock stands at 120, within the refund's approval window.
abbrev pub start : World
start = record {
  db = shop;
  durable = shop;
  outside = record { calls = []; provider_refs = []; outbox = []; escalations = [] };
  clock = λ n. 120;
  ticks = 0;
  next_id = 10;
}

-- A model that always asks for the customer's orders.
abbrev pub asking : Environment
asking = record {
  model = λ prompt w. ModelReply.answered "orders";
  decode = λ raw. Decoded.decoded Action.get_orders;
  sha256 = λ bytes. "digest";
}

abbrev pub same_case : String → String
same_case s = s

abbrev pub mail : InboundEmail
mail = record {
  envelope_from = "a@example.com";
  message_id = "m2";
  subject = "refund";
  body = "please";
}

-- A mail that opens a second case, an approval of the refund, and an unknown token.
abbrev pub day : List Request
day = Request.inbound mail ∷ Request.approve 2 "op" ∷ Request.confirm 77 ∷ []

abbrev evening : World
evening = serve_all same_case asking 2 2 day start

serve_all-IsPaidFor_example : IsPaidFor evening
serve_all-IsPaidFor_example = serve_all-IsPaidFor same_case asking 2 2 day start tt

serve_all-HasOneLive_example : Both (λ db. HasOneLive db.refunds) evening
serve_all-HasOneLive_example =
    serve_all-HasOneLive same_case asking 2 2 day start ((λ _. refl, tt), (λ _. refl, tt))

serve_all-Succeed_example : Both (λ db. Succeed (refund_row ∷ []) db.refunds) evening
serve_all-Succeed_example = serve_all-Succeed same_case asking 2 2 day start refl

serve_all-Extends_example : Both (Extends (proposed ∷ [])) evening
serve_all-Extends_example = serve_all-Extends same_case asking 2 2 day start refl

numbered : IsNumbered shop
numbered = ((omega arith, tt), (tt, tt))

serve_all-IsNumbered_example : Both IsNumbered evening
serve_all-IsNumbered_example =
    serve_all-IsNumbered same_case asking 2 2 day start (numbered, numbered)

catalogued : IsCatalogued shop
catalogued = (
  record { scope = (λ h. ground (arith, h), λ h. ground (arith, h)); actor = refl; channel = refl },
  tt,
)

serve_all-IsCatalogued_example : Both IsCatalogued evening
serve_all-IsCatalogued_example =
    serve_all-IsCatalogued same_case asking 2 2 day start (catalogued, catalogued)

Accounts-approve_example : Accounts (approve_refund 2 "op")
Accounts-approve_example = Accounts-approve 2 "op"

Accounts-propose_example :
    Accounts (execute_propose_refund case_row 1 (Decimal.finite false 2500 (negsuc 1)))
Accounts-propose_example = Accounts-propose case_row 1 (Decimal.finite false 2500 (negsuc 1))

append-Effect_example :
    Effect 1 (some 1) none Actor.agent Channel.internal (Payload.orders_listed (1001 ∷ [])) start (
      append_canonical_event 1
        (some 1)
        none
        Actor.agent
        Channel.internal
        (Payload.orders_listed (1001 ∷ []))
        start)
append-Effect_example =
    append-Effect 1 (some 1) none Actor.agent Channel.internal (Payload.orders_listed (1001 ∷ []))
      start
