-- ===== src/Api/Examples/Proposals.antt =====
-- A proposal of 25.00 for the linked order of a verified customer, which is paid at once.
use refundagent.Common.{none, false, [], ◌∷◌, ◌≡◌}
use refundagent.Common.Int.{negsuc}
use refundagent.Api.Examples.{proposed, shop, start}
use refundagent.Domain.Decimal.{Decimal}
use refundagent.Domain.Enums.{Actor, Channel, VerificationMethod}
use refundagent.Domain.Payload.{Payload}
use refundagent.Gate.Common.{expire_due_refunds_for_customer}
use refundagent.Gate.Operator.{reject_refund}
use refundagent.Gate.Payments.Quiet.{outside_unchanged}
use refundagent.Gate.Refund.{persist_refund_proposal}
use refundagent.Gate.Verification.{confirm_verification}
use refundagent.Projection.Types.{StoredEvent}
use refundagent.Store.Session.{World}

abbrev verified : StoredEvent
verified = record proposed {
  id = 4;
  case_id = none;
  order_id = none;
  actor = Actor.system;
  channel = Channel.verification_api;
  payload = Payload.customer_verified VerificationMethod.token;
}

abbrev linked : StoredEvent
linked = record proposed { id = 5; seq = 2; payload = Payload.order_linked 1001 }

abbrev ready : World
ready = record start {
  db = record shop { sequences = (1, 2) ∷ []; events = verified ∷ linked ∷ []; refunds = [] };
}

abbrev twenty_five : Decimal
twenty_five = Decimal.finite false 2500 (negsuc 1)

outside_unchanged_example :
    ((persist_refund_proposal 1 1 twenty_five ready).1.outside ≡ ready.outside)
    × ((reject_refund 2 "op" "late" ready).1.outside ≡ ready.outside)
    × ((expire_due_refunds_for_customer 1 ready).1.outside ≡ ready.outside)
    × ((confirm_verification 77 ready).1.outside ≡ ready.outside)
outside_unchanged_example = outside_unchanged ready 1 1 twenty_five 2 "op" "late" 77
