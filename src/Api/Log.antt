-- ===== src/Api/Log.antt =====
-- The event log over all requests: it is only appended to, its events are in the catalogue of
-- domain/events.py, and each customer's events are numbered upwards.
use refundagent.Common.{
  ℕ, ◌+◌, ◌<◌, String, List, [], ◌∷◌, ◌++◌, All, All-append, All-mono, ◌≡◌, refl, arith, ap,
}
use refundagent.Agent.Boundary.{Environment}
use refundagent.Api.Server.{Request, serve_all, kept-serve_all}
use refundagent.Domain.Events.{CanonicalEvent}
use refundagent.Domain.Events.Catalogue.{as_given, InCatalogue}
use refundagent.Domain.Texts.{CustomerId}
use refundagent.Gate.Keeps.Operations.{Written-Serves}
use refundagent.Projection.Types.{StoredEvent}
use refundagent.Store.Append.{last_seq, bump_seq, event_row}
use refundagent.Store.Append.Order.{Counted, IsCounted, IsCounted-add, Counted-bump}
use refundagent.Store.Keeps.Stable.{WritesDatabase, Both}
use refundagent.Store.Rows.{Database}
use refundagent.Store.Session.{World}

-- Later events of the same customer have larger numbers.
abbrev pub IsAscending : List StoredEvent → Type 0
IsAscending [] = Unit
IsAscending (e ∷ es) = All (λ f. f.customer_id ≡ e.customer_id → e.seq < f.seq) es × IsAscending es

abbrev pub IsNumbered : Database → Type 0
IsNumbered db = IsCounted db × IsAscending db.events

same_last : (s : List (CustomerId × ℕ)) (c d : CustomerId) → c ≡ d → last_seq c s ≡ last_seq d s
same_last s c d h = ap (λ x. last_seq x s) h

IsAscending-add :
    (s : List (CustomerId × ℕ)) (events : List StoredEvent) (e : StoredEvent)
    → e.seq ≡ last_seq e.customer_id s + 1
    → All (Counted s) events
    → IsAscending events
    → IsAscending (events ++ e ∷ [])
IsAscending-add s [] e number counted h = (tt, tt)
IsAscending-add s (x ∷ xs) e number (bound, counted) (above, h) = (
  All-append (λ f. f.customer_id ≡ x.customer_id → x.seq < f.seq) xs (e ∷ []) above
      (λ same. ground (arith, same_last s e.customer_id x.customer_id same), tt),
  IsAscending-add s xs e number counted h,
)

IsNumbered-WritesDatabase : WritesDatabase IsNumbered
IsNumbered-WritesDatabase = record {
  on_event = λ c k o a ch p at id db catalogue (counted, h). (
    IsCounted-add c db.sequences db.events _ counted refl refl,
    IsAscending-add db.sequences db.events _ refl counted h,
  );
  on_number = λ c db (counted, h). (
    All-mono (Counted db.sequences) (Counted (bump_seq c db.sequences))
        (Counted-bump c db.sequences) db.events counted,
    h,
  );
  on_status = λ from to sel db permitted selects h. h;
  on_refund = λ row db pending fresh free h. h;
  on_case = λ row db h. h;
}

abbrev pub canonical_of : StoredEvent → CanonicalEvent
canonical_of e = record {
  customer_id = e.customer_id;
  case_id = e.case_id;
  order_id = e.order_id;
  actor = e.actor;
  channel = e.channel;
  payload = e.payload;
}

abbrev pub IsCatalogued : Database → Type 0
IsCatalogued db = All (λ e. InCatalogue (canonical_of e)) db.events

IsCatalogued-WritesDatabase : WritesDatabase IsCatalogued
IsCatalogued-WritesDatabase = record {
  on_event = λ c k o a ch p at id db catalogue h.
      All-append (λ e. InCatalogue (canonical_of e)) db.events (_ ∷ []) h (catalogue, tt);
  on_number = λ c db h. h;
  on_status = λ from to sel db permitted selects h. h;
  on_refund = λ row db pending fresh free h. h;
  on_case = λ row db h. h;
}

-- The log is an old log with more events after it.
abbrev pub Extends : List StoredEvent → Database → Type 0
Extends old db = (new : List StoredEvent) × (db.events ≡ old ++ new)

append_assoc : (xs ys zs : List StoredEvent) → (xs ++ ys) ++ zs ≡ xs ++ (ys ++ zs)
append_assoc [] ys zs = refl
append_assoc (x ∷ xs) ys zs = rw (append_assoc xs ys zs) refl

append-nil : (xs : List StoredEvent) → xs ++ [] ≡ xs
append-nil [] = refl
append-nil (x ∷ xs) = rw (append-nil xs) refl

Extends-WritesDatabase : (old : List StoredEvent) → WritesDatabase (Extends old)
Extends-WritesDatabase old = record {
  on_event = λ c k o a ch p at id db catalogue (new, same). (
    new ++ event_row (as_given c k o a ch p) (last_seq c db.sequences + 1) at id ∷ [],
    rw (same, append_assoc) refl,
  );
  on_number = λ c db h. h;
  on_status = λ from to sel db permitted selects h. h;
  on_refund = λ row db pending fresh free h. h;
  on_case = λ row db h. h;
}

module _ (lower : String → String) (env : Environment) (loop_fuel queue_fuel : ℕ) where
  -- If no event has a number above its customer's counter, and later events of a customer have
  -- larger numbers, in the session's database and as committed, then that still holds after any
  -- list of requests.
  pub serve_all-IsNumbered :
      (qs : List Request) (w : World)
      → Both IsNumbered w
      → Both IsNumbered (serve_all lower env loop_fuel queue_fuel qs w)
  serve_all-IsNumbered qs w h =
      kept-serve_all lower env loop_fuel queue_fuel (Written-Serves IsNumbered-WritesDatabase) qs w
        h

  -- If every event of the log has the scope, the actor and the channel that the catalogue wants
  -- for its type, in the session's database and as committed, then that still holds after any list
  -- of requests.
  pub serve_all-IsCatalogued :
      (qs : List Request) (w : World)
      → Both IsCatalogued w
      → Both IsCatalogued (serve_all lower env loop_fuel queue_fuel qs w)
  serve_all-IsCatalogued qs w h =
      kept-serve_all lower env loop_fuel queue_fuel (Written-Serves IsCatalogued-WritesDatabase) qs
        w h

  -- From a state whose session sees the committed log, any list of requests leaves a log that is
  -- the committed log with further events after it, in the session's database and as committed.
  pub serve_all-Extends :
      (qs : List Request) (w : World)
      → w.db.events ≡ w.durable.events
      → Both (Extends w.durable.events) (serve_all lower env loop_fuel queue_fuel qs w)
  serve_all-Extends qs w h =
      kept-serve_all lower env loop_fuel queue_fuel
        (Written-Serves (Extends-WritesDatabase w.durable.events)) qs w
        (([], rw (h, append-nil) refl), ([], rw append-nil refl))
