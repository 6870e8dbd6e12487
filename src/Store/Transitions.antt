-- ===== src/Store/Transitions.antt =====
-- repositories/refund_transitions.py: the lifecycle matrix and the guarded status update.
use refundagent.Common.{
  ◌==◌, Bool, true, not, ◌&&◌, Option, none, some, List, [], ◌∷◌, filter, length, any,
  if◌then◌else◌,
}
use refundagent.Common.Int.{ℤ, eq_ℤ}
use refundagent.Domain.Enums.{RefundStatus, same_refund_status}
use refundagent.Domain.Result.{ok, refund_status_transition}
use refundagent.Domain.Texts.{CaseId, OrderId, RefundId}
use refundagent.Store.Rows.{RefundRow}
use refundagent.Store.Session.{Tx, fail_if, ◌>>◌}

-- `allowed_refund_status_targets`
unfoldable pub allowed_refund_status_targets : RefundStatus → List RefundStatus
allowed_refund_status_targets RefundStatus.pending_approval =
    RefundStatus.approved ∷ RefundStatus.rejected ∷ RefundStatus.expired ∷ []
allowed_refund_status_targets RefundStatus.approved = RefundStatus.executed ∷ []
allowed_refund_status_targets _ = []

unfoldable pub transition_permitted : RefundStatus → RefundStatus → Bool
unfolding allowed_refund_status_targets
transition_permitted from to = any (same_refund_status to) (allowed_refund_status_targets from)

pub record RefundIntentBinding : Type 0 where
  pub order_id : OrderId
  pub case_id : CaseId
  pub amount : ℤ

abbrev pub binds : Option RefundIntentBinding → RefundRow → Bool
binds none row = true
binds (some b) row =
    row.order_id == b.order_id && (row.case_id == b.case_id && eq_ℤ row.amount b.amount)

-- The WHERE clause of the update.
unfoldable pub selected : RefundId → RefundStatus → Option RefundIntentBinding → RefundRow → Bool
selected r from binding row =
    row.id == r && (same_refund_status row.status from && binds binding row)

-- Every caller leaves `clear_approval_expires_at` at its default, true.
abbrev pub moved : RefundStatus → RefundRow → RefundRow
moved to row = record row { status = to; approval_expires_at = none }

unfoldable pub update_rows : (RefundRow → Bool) → RefundStatus → List RefundRow → List RefundRow
update_rows p to [] = []
update_rows p to (row ∷ rows) = (if p row then moved to row else row) ∷ update_rows p to rows

-- The guarded UPDATE; true when it changed exactly one row.
unfoldable pub update_refunds : (RefundRow → Bool) → RefundStatus → Tx Bool
unfolding update_rows
update_refunds p to w = (
  ok (length (filter p w.db.refunds) == 1),
  record w { db = record w.db { refunds = update_rows p to w.db.refunds } },
)

unfoldable pub transition_refund_status :
    RefundId → RefundStatus → RefundStatus → Option RefundIntentBinding → Tx Bool
unfolding transition_permitted selected update_refunds
transition_refund_status r from to binding = do
  fail_if (not (transition_permitted from to)) refund_status_transition
  update_refunds (selected r from binding) to
