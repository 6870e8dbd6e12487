-- ===== src/Projection/Types.antt =====
-- projections/types.py and the `StoredEvent` of repositories/events.py, which the projections read
-- through the protocol `FoldableEvent`.
use refundagent.Common.{ℕ, leb, Bool, Option, String}
use refundagent.Common.Int.{ℤ}
use refundagent.Domain.Enums.{Actor, Channel}
use refundagent.Domain.Payload.{Payload}
use refundagent.Domain.Texts.{CustomerId, CaseId, OrderId, Instant}

pub record StoredEvent : Type 0 where
  pub id : ℕ
  pub customer_id : CustomerId
  pub case_id : Option CaseId
  pub order_id : Option OrderId
  pub seq : ℕ
  pub actor : Actor
  pub channel : Channel
  pub payload : Payload
  pub created_at : Instant

-- `key=lambda fold_event: fold_event.seq`
abbrev pub by_seq : StoredEvent → StoredEvent → Bool
by_seq a b = leb a.seq b.seq

pub record CustomerSeed : Type 0 where
  pub customer_id : CustomerId
  pub email : String

pub record OrderSeed : Type 0 where
  pub order_id : OrderId
  pub customer_id : CustomerId
  pub total : ℤ
