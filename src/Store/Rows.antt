-- ===== src/Store/Rows.antt =====
-- domain/tables.py: the rows. Seeds and events have no update and no delete in the model, which is
-- what the listeners on those tables enforce.
use refundagent.Common.{ℕ, String, Option, List}
use refundagent.Common.Int.{ℤ}
use refundagent.Domain.Enums.{OrderStatus, RefundStatus}
use refundagent.Domain.Texts.{CustomerId, CaseId, OrderId, RefundId, Instant}
use refundagent.Projection.Types.{StoredEvent}

pub record CustomerRow : Type 0 where
  pub id : CustomerId
  pub email : String
  pub name : String

pub record OrderRow : Type 0 where
  pub id : OrderId
  pub customer_id : CustomerId
  pub item : String
  pub total : ℤ
  pub status : OrderStatus

pub record CaseRow : Type 0 where
  pub id : CaseId
  pub customer_id : CustomerId
  pub opening_message_id : String
  pub created_at : Instant

pub record RefundRow : Type 0 where
  pub id : RefundId
  pub customer_id : CustomerId
  pub order_id : OrderId
  pub case_id : CaseId
  pub amount : ℤ
  pub status : RefundStatus
  pub approval_expires_at : Option Instant
  pub created_at : Instant

-- `sequences` is the table `event_sequences`: customer and last allocated number.
pub record Database : Type 0 where
  pub customers : List CustomerRow
  pub orders : List OrderRow
  pub cases : List CaseRow
  pub sequences : List (CustomerId × ℕ)
  pub events : List StoredEvent
  pub refunds : List RefundRow
