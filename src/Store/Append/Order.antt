-- ===== src/Store/Append/Order.antt =====
-- Sequence numbers: no event of a customer has a number above the customer's counter, so the next
-- number is new and the largest.
use refundagent.Common.{
  ℕ, ◌+◌, ◌==◌, ◌≤◌, ◌≡◌, List, [], ◌∷◌, ◌++◌, All, All-append, All-mono, arith, if◌then◌else◌,
}
use refundagent.Domain.Texts.{CustomerId}
use refundagent.Projection.Types.{StoredEvent}
use refundagent.Store.Append.{last_seq, bump_seq}
use refundagent.Store.Rows.{Database}

pub last_seq-bump_seq :
    (c d : CustomerId) (s : List (CustomerId × ℕ))
    → last_seq d (bump_seq c s) ≡ (if c == d then last_seq c s + 1 else last_seq d s)
last_seq-bump_seq c d [] = ground arith
last_seq-bump_seq c d ((x, n) ∷ s) = ground (arith, last_seq-bump_seq c d s)

abbrev pub Counted : List (CustomerId × ℕ) → StoredEvent → Type 0
Counted s e = e.seq ≤ last_seq e.customer_id s

abbrev pub IsCounted : Database → Type 0
IsCounted db = All (Counted db.sequences) db.events

pub Counted-bump :
    (c : CustomerId) (s : List (CustomerId × ℕ)) (e : StoredEvent)
    → Counted s e
    → Counted (bump_seq c s) e
Counted-bump c s e h = ground (arith, last_seq-bump_seq c e.customer_id s)

-- An append keeps the counters above the log.
pub IsCounted-add :
    (c : CustomerId) (s : List (CustomerId × ℕ)) (events : List StoredEvent) (e : StoredEvent)
    → All (Counted s) events
    → e.customer_id ≡ c
    → e.seq ≡ last_seq c s + 1
    → All (Counted (bump_seq c s)) (events ++ e ∷ [])
IsCounted-add c s events e h owner number =
    All-append (Counted (bump_seq c s)) events (e ∷ [])
      (All-mono (Counted s) (Counted (bump_seq c s)) (Counted-bump c s) events h)
      (ground (arith, last_seq-bump_seq c e.customer_id s), tt)
