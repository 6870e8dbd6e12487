-- ===== src/Projection/Customer.antt =====
-- projections/customer.py: whether a customer has been verified.
use refundagent.Common.{String, ◌==◌, ◌&&◌, Bool, List, any}
use refundagent.Domain.Payload.{event_type, is_customer_verified}
use refundagent.Domain.Texts.{CustomerId}
use refundagent.Projection.Types.{StoredEvent, CustomerSeed}

pub record CustomerSummary : Type 0 where
  pub customer_id : CustomerId
  pub email : String
  pub verified : Bool

-- The test of `_customer_scoped_events`, of which the source takes the truth of the list.
abbrev pub verifies : CustomerId → StoredEvent → Bool
verifies c e = e.customer_id == c && is_customer_verified (event_type e.payload)

unfoldable pub project_customer_summary : CustomerSeed → List StoredEvent → CustomerSummary
project_customer_summary seed events = record {
  customer_id = seed.customer_id;
  email = seed.email;
  verified = any (verifies seed.customer_id) events;
}
