-- ===== src/Store/Append.antt =====
-- `append_canonical_event` of repositories/events.py, the one writer of the event log.
pub mod Effect
pub mod Order
use refundagent.Common.{
  ℕ, suc, ◌+◌, ◌==◌, Option, none, some, is_some, any, ◌||◌, ◌&&◌, List, [], ◌∷◌, ◌++◌, Bool,
  if◌then◌else◌,
}
use refundagent.Domain.Enums.{Actor, Channel}
use refundagent.Domain.Events.{CanonicalEvent, build_canonical_event}
use refundagent.Domain.Payload.{Payload}
use refundagent.Domain.Result.{ok, err, integrity_error}
use refundagent.Domain.Texts.{CustomerId, CaseId, OrderId, Instant}
use refundagent.Projection.Types.{StoredEvent}
use refundagent.Store.Queries.{lock_customer_for_update, validate_event_relational_scope}
use refundagent.Store.Rows.{Database}
use refundagent.Store.Session.{Tx, World, pure, lift, now, fresh_id, ◌>>=◌, ◌>>◌}

-- The last number allocated for a customer: no row counts as 0, the value of the row that
-- `_ensure_event_sequence_row` inserts.
abbrev pub last_seq : CustomerId → List (CustomerId × ℕ) → ℕ
last_seq c [] = 0
last_seq c ((d, n) ∷ rest) = if d == c then n else last_seq c rest

-- `UPDATE … SET next_seq = next_seq + 1`, after an insert where there is no row.
abbrev pub bump_seq : CustomerId → List (CustomerId × ℕ) → List (CustomerId × ℕ)
bump_seq c [] = (c, 1) ∷ []
bump_seq c ((d, n) ∷ rest) = if d == c then (d, n + 1) ∷ rest else (d, n) ∷ bump_seq c rest

-- `_allocate_customer_event_seq`
unfoldable pub allocate_customer_event_seq : CustomerId → Tx ℕ
allocate_customer_event_seq c w = (
  ok (last_seq c w.db.sequences + 1),
  record w { db = record w.db { sequences = bump_seq c w.db.sequences } },
)

abbrev pub event_row : CanonicalEvent → ℕ → Instant → ℕ → StoredEvent
event_row e seq created_at id = record {
  id = id;
  customer_id = e.customer_id;
  case_id = e.case_id;
  order_id = e.order_id;
  seq = seq;
  actor = e.actor;
  channel = e.channel;
  payload = e.payload;
  created_at = created_at;
}

-- An event of the log has the primary key, or the customer and the sequence number.
abbrev pub collides : StoredEvent → List StoredEvent → Bool
collides e events =
    any (λ x. x.id == e.id || (x.customer_id == e.customer_id && x.seq == e.seq)) events

-- `session.add(event_row)` and the flush, with the table's primary key and its unique constraint on
-- customer and sequence number. Identifiers start again in each process, so that the primary key of
-- an event that another process has stored may come again.
unfoldable pub add_event : StoredEvent → Tx StoredEvent
add_event e w =
    if collides e w.db.events
    then (err integrity_error, w)
    else (ok e, record w { db = record w.db { events = w.db.events ++ e ∷ [] } })

unfoldable pub append_canonical_event :
    CustomerId → Option CaseId → Option OrderId → Actor → Channel → Payload → Tx StoredEvent
unfolding lock_customer_for_update validate_event_relational_scope allocate_customer_event_seq
    add_event
append_canonical_event c k o actor channel payload = do
  lock_customer_for_update c
  event ← lift (build_canonical_event c k o actor channel payload)
  validate_event_relational_scope event.customer_id event.case_id event.order_id
  seq ← allocate_customer_event_seq c
  created_at ← now
  id ← fresh_id
  add_event (event_row event seq created_at id)
