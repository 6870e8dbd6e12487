-- ===== src/Store/Queries.antt =====
-- repositories/: the queries on customers, orders, cases, refunds and events, and
-- repositories/relational_scope.py.
use refundagent.Common.{
  ℕ, ◌==◌, ◌=?◌, leb, ltb, Bool, true, false, not, ◌&&◌, ◌||◌, String, Option, none, some, List,
  filter, find?, sort_by,
}
use text.Mathlib.Text.{◌==◌ as str_eq}
use refundagent.Domain.Enums.{RefundStatus, same_refund_status}
use refundagent.Domain.Result.{customer_not_found, refund_not_found, invalid_relational_scope}
use refundagent.Domain.Texts.{CustomerId, CaseId, OrderId, RefundId, Instant}
use refundagent.Projection.Types.{StoredEvent, by_seq}
use refundagent.Store.Names.{name_leb}
use refundagent.Store.Rows.{CustomerRow, OrderRow, CaseRow, RefundRow, Database}
use refundagent.Store.Session.{Tx, pure, gets, require, fail_if, ◌>>=◌, ◌>>◌}

-- `session.get(CustomerRow, id)` and the like
abbrev pub find_customer : CustomerId → Database → Option CustomerRow
find_customer c db = find? (λ r. r.id == c) db.customers

abbrev pub find_case : CaseId → Database → Option CaseRow
find_case k db = find? (λ r. r.id == k) db.cases

-- repositories/orders.py
unfoldable pub find_order_by_id : OrderId → Database → Option OrderRow
find_order_by_id o db = find? (λ r. r.id == o) db.orders

unfoldable pub list_orders_for_customer : CustomerId → Database → List OrderRow
list_orders_for_customer c db =
    sort_by (λ a b. name_leb a.id b.id) (filter (λ r. r.customer_id == c) db.orders)

-- repositories/cases.py
unfoldable pub list_cases_for_customer_ordered : CustomerId → Database → List CaseRow
list_cases_for_customer_ordered c db =
    sort_by (λ a b. leb a.created_at b.created_at) (filter (λ r. r.customer_id == c) db.cases)

unfoldable pub find_case_for_customer_by_opening_message_id :
    CustomerId → String → Database → Option CaseRow
find_case_for_customer_by_opening_message_id c message db =
    find? (λ r. r.customer_id == c && str_eq r.opening_message_id message) db.cases

-- repositories/refunds.py
abbrev pub find_refund_by_id : RefundId → Database → Option RefundRow
find_refund_by_id r db = find? (λ row. row.id == r) db.refunds

unfoldable pub require_refund_by_id : RefundId → Tx RefundRow
require_refund_by_id r = do row ← gets (λ w. find_refund_by_id r w.db); require row refund_not_found

-- A pending or an approved refund is live.
abbrev pub is_live : RefundStatus → Bool
is_live RefundStatus.pending_approval = true
is_live RefundStatus.approved = true
is_live _ = false

abbrev pub live_on : OrderId → RefundRow → Bool
live_on o row = row.order_id == o && is_live row.status

unfoldable pub find_open_refund_for_order : OrderId → Database → Option RefundRow
find_open_refund_for_order o db = find? (live_on o) db.refunds

-- `approval_window_is_open`, exclusive of its end
unfoldable pub approval_window_is_open : Option Instant → Instant → Bool
approval_window_is_open none now = false
approval_window_is_open (some expires_at) now = not (leb expires_at now)

-- `active_pending_refund_clause` and `due_for_expiry_clause`; a comparison with NULL holds of no row
unfoldable pub active_pending_refund : Instant → RefundRow → Bool
unfolding approval_window_is_open
active_pending_refund now row = approval_window_is_open row.approval_expires_at now

abbrev pub past : Option Instant → Instant → Bool
past none now = false
past (some expires_at) now = leb expires_at now

unfoldable pub due_for_expiry : Instant → RefundRow → Bool
due_for_expiry now row = past row.approval_expires_at now

abbrev instant_or_zero : Option Instant → Instant
instant_or_zero none = 0
instant_or_zero (some i) = i

-- `.order_by(RefundRow.approval_expires_at, RefundRow.id)`, on rows that have an expiry
abbrev by_expiry : RefundRow → RefundRow → Bool
by_expiry a b =
    let i = instant_or_zero a.approval_expires_at in
    let j = instant_or_zero b.approval_expires_at in ltb i j || (i == j && name_leb a.id b.id)

unfoldable pub list_active_pending_refunds : Instant → Database → List RefundRow
unfolding active_pending_refund
list_active_pending_refunds now db = sort_by by_expiry (
    filter
      (λ row.
        same_refund_status row.status RefundStatus.pending_approval
        && active_pending_refund now row)
      db.refunds)

-- repositories/events.py
unfoldable pub load_customer_events : CustomerId → Database → List StoredEvent
load_customer_events c db = sort_by by_seq (filter (λ e. e.customer_id == c) db.events)

unfoldable pub load_case_events : CaseId → Database → List StoredEvent
load_case_events k db = sort_by by_seq (filter (λ e. e.case_id =? k) db.events)

-- repositories/customers.py: the lock itself is the model's running of one operation at a time
unfoldable pub lock_customer_for_update : CustomerId → Tx CustomerRow
lock_customer_for_update c = do
  row ← gets (λ w. find_customer c w.db)
  require row customer_not_found

-- repositories/relational_scope.py
abbrev pub case_customer : CaseId → Database → Option CustomerId
case_customer k db = elim (find_case k db) [ none ↦ none | some row ↦ some row.customer_id ]

abbrev pub order_customer : OrderId → Database → Option CustomerId
order_customer o db = elim (find? (λ r. r.id == o) db.orders) [
  | none ↦ none
  | some row ↦ some row.customer_id
]

-- An identifier that is given belongs to the customer.
abbrev pub belongs : CustomerId → (ℕ → Option CustomerId) → Option ℕ → Bool
belongs c owner none = true
belongs c owner (some i) = owner i =? c

-- One test for the source's five: each of them raises the same error, and the last, that the case's
-- and the order's customers agree, follows from the others.
unfoldable pub validate_event_relational_scope :
    CustomerId → Option CaseId → Option OrderId → Tx (Unit {0})
validate_event_relational_scope c k o = do
  foreign ← gets (λ w.
      not (belongs c (λ i. case_customer i w.db) k)
      || not (belongs c (λ i. order_customer i w.db) o))
  fail_if foreign invalid_relational_scope

unfoldable pub validate_refund_relational_scope : CaseId → OrderId → Tx CustomerId
validate_refund_relational_scope k o = do
  case_owner ← gets (λ w. case_customer k w.db)
  c ← require case_owner invalid_relational_scope
  order_owner ← gets (λ w. order_customer o w.db)
  d ← require order_owner invalid_relational_scope
  fail_if (not (c == d)) invalid_relational_scope
  pure c
