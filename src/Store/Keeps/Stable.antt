-- ===== src/Store/Keeps/Stable.antt =====
-- The changes that the program makes in its database, and what is stable under each of them.
use refundagent.Common.{ℕ, ◌+◌, Bool, true, false, ◌==◌, Option, [], ◌∷◌, ◌++◌, any, ◌≡◌}
use refundagent.Domain.Enums.{Actor, Channel, RefundStatus}
use refundagent.Domain.Events.Catalogue.{as_given, InCatalogue}
use refundagent.Domain.Payload.{Payload}
use refundagent.Domain.Texts.{CustomerId, CaseId, OrderId, Instant}
use refundagent.Store.Append.{last_seq, bump_seq, event_row}
use refundagent.Store.Keeps.{Frames, Rolls}
use refundagent.Store.Queries.{live_on}
use refundagent.Store.Rows.{Database, CaseRow, RefundRow}
use refundagent.Store.Session.{World, Outside}
use refundagent.Store.Transitions.{transition_permitted, update_rows}

-- A customer's next event, with its number taken.
abbrev pub with_event :
    CustomerId
    → Option CaseId
    → Option OrderId
    → Actor
    → Channel
    → Payload
    → Instant
    → ℕ
    → Database
    → Database
with_event c k o a ch p at id db = record db {
  sequences = bump_seq c db.sequences;
  events = db.events ++ event_row (as_given c k o a ch p) (last_seq c db.sequences + 1) at id ∷ [];
}

-- Some refunds of status `from`, set to `to`.
abbrev pub with_status : (RefundRow → Bool) → RefundStatus → Database → Database
with_status sel to db = record db { refunds = update_rows sel to db.refunds }

abbrev pub with_refund : RefundRow → Database → Database
with_refund row db = record db { refunds = db.refunds ++ row ∷ [] }

abbrev pub with_case : CaseRow → Database → Database
with_case row db = record db { cases = db.cases ++ row ∷ [] }

-- Predicates on the state that each guarded write of the program keeps.
pub record Writes (P : World → Type 0) : Type 0 where
  pub frames : Frames P
  pub on_event :
      (c : CustomerId) (k : Option CaseId) (o : Option OrderId) (a : Actor) (ch : Channel)
      (p : Payload) (at : Instant) (id : ℕ) (w : World)
      → InCatalogue (as_given c k o a ch p)
      → P w
      → P (record w { db = with_event c k o a ch p at id w.db })
  -- An event's number is taken, and the event is not stored.
  pub on_number :
      (c : CustomerId) (w : World)
      → P w
      → P (record w { db = record w.db { sequences = bump_seq c w.db.sequences } })
  pub on_status :
      (from to : RefundStatus) (sel : RefundRow → Bool) (w : World)
      → transition_permitted from to ≡ true
      → ((row : RefundRow) → sel row ≡ true → row.status ≡ from)
      → P w
      → P (record w { db = with_status sel to w.db })
  pub on_refund :
      (row : RefundRow) (w : World)
      → row.status ≡ RefundStatus.pending_approval
      → any (λ r. r.id == row.id) w.db.refunds ≡ false
      → any (live_on row.order_id) w.db.refunds ≡ false
      → P w
      → P (record w { db = with_refund row w.db })

-- They are kept where a case is opened too.
pub record Opens (P : World → Type 0) : Type 0 where
  pub on_case : (row : CaseRow) (w : World) → P w → P (record w { db = with_case row w.db })

-- They are kept by the mailer and the ticketing system too.
pub record Sends (P : World → Type 0) : Type 0 where
  pub writes : Writes P
  pub on_sent :
      (w : World) (o : Outside) → o.calls ≡ w.outside.calls → P w → P (record w { outside = o })

-- They are kept by the payment provider too.
pub record Stable (P : World → Type 0) : Type 0 where
  pub sends : Sends P
  pub rolls : Rolls P
  pub on_paid : (w : World) (o : Outside) → P w → P (record w { outside = o })

-- What each guarded write keeps of the database.
pub record WritesDatabase (Q : Database → Type 0) : Type 0 where
  pub on_event :
      (c : CustomerId) (k : Option CaseId) (o : Option OrderId) (a : Actor) (ch : Channel)
      (p : Payload) (at : Instant) (id : ℕ) (db : Database)
      → InCatalogue (as_given c k o a ch p)
      → Q db
      → Q (with_event c k o a ch p at id db)
  -- An event's number is taken, and the event is not stored.
  pub on_number :
      (c : CustomerId) (db : Database)
      → Q db
      → Q (record db { sequences = bump_seq c db.sequences })
  pub on_status :
      (from to : RefundStatus) (sel : RefundRow → Bool) (db : Database)
      → transition_permitted from to ≡ true
      → ((row : RefundRow) → sel row ≡ true → row.status ≡ from)
      → Q db
      → Q (with_status sel to db)
  pub on_refund :
      (row : RefundRow) (db : Database)
      → row.status ≡ RefundStatus.pending_approval
      → any (λ r. r.id == row.id) db.refunds ≡ false
      → any (live_on row.order_id) db.refunds ≡ false
      → Q db
      → Q (with_refund row db)
  pub on_case : (row : CaseRow) (db : Database) → Q db → Q (with_case row db)

-- What holds of the database in the session and of the database as committed.
abbrev pub Both : (Database → Type 0) → World → Type 0
Both Q w = Q w.db × Q w.durable

pub Both-Stable : {Q : Database → Type 0} → WritesDatabase Q → Stable (Both Q)
Both-Stable q = record {
  sends = record {
    writes = record {
      frames = record {
        on_time = λ w h. h;
        on_id = λ w h. h;
        on_commit = λ w h. (h.0, h.0);
        on_restore = λ v w q s h. (s.0, h.1);
      };
      on_event = λ c k o a ch p at id w catalogue h.
          (q.on_event c k o a ch p at id w.db catalogue h.0, h.1);
      on_number = λ c w h. (q.on_number c w.db h.0, h.1);
      on_status = λ from to sel w permitted selects h.
          (q.on_status from to sel w.db permitted selects h.0, h.1);
      on_refund = λ row w pending fresh free h. (q.on_refund row w.db pending fresh free h.0, h.1);
    };
    on_sent = λ w o same h. h;
  };
  rolls = record { on_rollback = λ w h. (h.1, h.1) };
  on_paid = λ w o h. h;
}

pub Both-Opens : {Q : Database → Type 0} → WritesDatabase Q → Opens (Both Q)
Both-Opens q = record { on_case = λ row w h. (q.on_case row w.db h.0, h.1) }

-- Every write of the database leaves the adapters as they are.
pub quiet : (o : Outside) → Writes (λ w. w.outside ≡ o)
quiet o = record {
  frames = record {
    on_time = λ w h. h;
    on_id = λ w h. h;
    on_commit = λ w h. h;
    on_restore = λ v w q s h. h;
  };
  on_event = λ c k o a ch p at id w catalogue h. h;
  on_number = λ c w h. h;
  on_status = λ from to sel w permitted selects h. h;
  on_refund = λ row w pending fresh free h. h;
}

pub quiet_Opens : (o : Outside) → Opens (λ w. w.outside ≡ o)
quiet_Opens o = record { on_case = λ row w h. h }
