-- ===== src/Store/Intent.antt =====
-- repositories/refund_intent.py: the sole proposal event behind a refund row, and their agreement.
use refundagent.Common.{
  ◌==◌, ◌=?◌, Bool, false, not, ◌&&◌, Option, none, some, List, [], ◌∷◌, filter,
}
use refundagent.Common.Int.{ℤ, eq_ℤ}
use refundagent.Domain.Payload.{Payload}
use refundagent.Domain.Result.{Result, ok, err, ◌>>=◌, ◌>>◌, raise_if, refund_intent_integrity}
use refundagent.Domain.Texts.{CustomerId, CaseId, RefundId}
use refundagent.Projection.Types.{StoredEvent}
use refundagent.Store.Queries.{load_case_events}
use refundagent.Store.Rows.{RefundRow, Database}

abbrev pub proposes : RefundId → Payload → Bool
proposes r (Payload.refund_proposed s amount) = s == r
proposes r _ = false

-- The event type and refund of a `refund_proposed` event.
abbrev pub is_proposal_of : RefundId → StoredEvent → Bool
is_proposal_of r e = proposes r e.payload

abbrev sole : List StoredEvent → Result StoredEvent
sole [] = err refund_intent_integrity
sole (e ∷ []) = ok e
sole (e ∷ f ∷ more) = err refund_intent_integrity

unfoldable pub load_canonical_refund_proposed_event :
    CaseId → RefundId → Database → Result StoredEvent
unfolding load_case_events
load_canonical_refund_proposed_event k r db =
    sole (filter (is_proposal_of r) (load_case_events k db))

-- The payload of a proposal: refund and amount.
abbrev pub proposed_payload : Payload → Option (RefundId × ℤ)
proposed_payload (Payload.refund_proposed r amount) = some (r, amount)
proposed_payload _ = none

-- Whether the row and the evidence name the same customer, case, order, refund and amount.
abbrev pub agrees : CustomerId → RefundRow → StoredEvent → RefundId × ℤ → Bool
agrees c row e (r, amount) =
    e.customer_id == c
    && (e.customer_id == row.customer_id
        && (e.case_id =? row.case_id
            && (e.order_id =? row.order_id && (r == row.id && eq_ℤ amount row.amount))))

-- The amount of the evidence that agrees.
abbrev pub checked_amount : CustomerId → RefundRow → StoredEvent → Option (RefundId × ℤ) → Result ℤ
checked_amount c row e none = err refund_intent_integrity
checked_amount c row e (some p) = do
  raise_if (not (agrees c row e p)) refund_intent_integrity
  ok p.1

-- `validate_refund_intent_against_proposed_evidence`, whose payload the callers read for the amount
-- (`refund_payment_amount_from_evidence`).
unfoldable pub validate_refund_intent : RefundRow → CustomerId → Database → Result ℤ
unfolding load_canonical_refund_proposed_event
validate_refund_intent row c db = do
  e ← load_canonical_refund_proposed_event row.case_id row.id db
  checked_amount c row e (proposed_payload e.payload)
