-- ===== src/Gate/Progress.antt =====
-- How the step count of projections/case.py grows with the log.
pub mod Actions
pub mod Proposals
use refundagent.Common.{
  ℕ, ◌+◌, ◌≤◌, ◌==◌, ◌=?◌, ◌&&◌, Bool, true, false, Option, none, some, List, [], ◌∷◌, ◌++◌, All,
  All-append, All-mono, All-filter, All-filter_self, All-sort_by, All-both, filter, filter-append,
  sort_by-append, find?, ◌≡◌, refl, inl, inr, arith, Bool-cases, if◌then◌else◌, eq_of_==, ap, sym,
  ==-refl, ◌∙◌, leb, Option-cases,
}
use refundagent.Domain.Enums.{Actor, Channel}
use refundagent.Domain.Events.Catalogue.{as_given}
use refundagent.Domain.Payload.{Payload}
use refundagent.Domain.Texts.{CustomerId, CaseId, OrderId, Instant}
use refundagent.Projection.Case.{
  CaseFoldState, apply_case_event, in_case_fold, fold_case, counts_as_agent_step, apply_payload,
}
use refundagent.Projection.Case.Growth.{step_count-apply, fold_case-append}
use refundagent.Projection.Types.{StoredEvent, by_seq}
use refundagent.Store.Append.{last_seq, bump_seq, event_row}
use refundagent.Store.Append.Order.{Counted, IsCounted, IsCounted-add, Counted-bump}
use refundagent.Store.Keeps.Stable.{with_event, Writes, Sends}
use refundagent.Store.Queries.{load_customer_events}
use refundagent.Store.Rows.{Database, CaseRow}
use refundagent.Store.Session.{World}

abbrev pub steps_in : CaseId → CustomerId → List StoredEvent → ℕ
steps_in k c events = (fold_case k c events).step_count

-- The agent's steps that the log shows for a case.
abbrev pub case_steps : CaseId → CustomerId → Database → ℕ
case_steps k c db = steps_in k c (load_customer_events c db)

append_nothing : (xs : List StoredEvent) → xs ++ [] ≡ xs
append_nothing [] = refl
append_nothing (x ∷ xs) = rw (append_nothing xs) refl

below :
    (s : List (CustomerId × ℕ)) (c : CustomerId) (e x : StoredEvent)
    → e.seq ≡ last_seq c s + 1
    → Counted s x × ((x.customer_id == c) ≡ true)
    → x.seq ≤ e.seq
below s c e x number (counted, own) =
    omega (arith, number, counted, ap (λ d. last_seq d s) (eq_of_== x.customer_id c own))

leb_of_le : (a b : ℕ) → a ≤ b → leb a b ≡ true
leb_of_le a b h = ground arith

applied_if :
    (b : Bool) (s : CaseFoldState) (e : StoredEvent)
    → (if b then apply_case_event s e else s).step_count
      ≡ (if b && counts_as_agent_step e.payload then s.step_count + 1 else s.step_count)
applied_if true s e = step_count-apply e.seq e.order_id e.payload s
applied_if false s e = refl

module _ (k : CaseId) (c : CustomerId) (db : Database) (e : StoredEvent) (counted : IsCounted db)
    (number : e.seq ≡ last_seq c db.sequences + 1) where
  own_below : All (λ x. x.seq ≤ e.seq) (filter (λ x. x.customer_id == c) db.events)
  own_below =
      All-mono (λ x. Counted db.sequences x × ((x.customer_id == c) ≡ true)) (λ x. x.seq ≤ e.seq)
        (λ x h. below db.sequences c e x number h) (filter (λ x. x.customer_id == c) db.events)
        (All-both (Counted db.sequences) (λ x. (x.customer_id == c) ≡ true) _
          (All-filter (Counted db.sequences) (λ x. x.customer_id == c) db.events counted)
          (All-filter_self (λ x. x.customer_id == c) db.events))

  -- The customer's next event is loaded last.
  load-own :
      (e.customer_id == c) ≡ true
      → load_customer_events c (record db { events = db.events ++ e ∷ [] })
        ≡ load_customer_events c db ++ e ∷ []
  unfolding load_customer_events
  load-own own =
      rw (filter-append, own)
        (sort_by-append by_seq e (filter (λ x. x.customer_id == c) db.events) (
          All-mono (λ x. x.seq ≤ e.seq) (λ x. by_seq x e ≡ true) (λ x h. leb_of_le x.seq e.seq h) _
            own_below))

  loaded_below : All (λ x. x.seq ≤ e.seq) (load_customer_events c db)
  unfolding load_customer_events
  loaded_below = All-sort_by (λ x. x.seq ≤ e.seq) by_seq _ own_below

  steps-own :
      (e.customer_id == c) ≡ true
      → case_steps k c (record db { events = db.events ++ e ∷ [] }) ≡ (
          if in_case_fold c k e && counts_as_agent_step e.payload
          then case_steps k c db + 1
          else case_steps k c db)
  steps-own own =
      ap (λ es. steps_in k c es) (load-own own)
      ∙ ap (λ s. s.step_count) (fold_case-append c k (load_customer_events c db) e loaded_below)
      ∙ applied_if (in_case_fold c k e) (fold_case k c (load_customer_events c db)) e

load-other :
    (c : CustomerId) (db : Database) (e : StoredEvent)
    → (e.customer_id == c) ≡ false
    → load_customer_events c (record db { events = db.events ++ e ∷ [] })
      ≡ load_customer_events c db
unfolding load_customer_events
load-other c db e other = rw (filter-append, other, append_nothing) refl

-- A log that is numbered, and that shows `n` steps of the case at least.
abbrev pub HasSteps : CaseRow → ℕ → Database → Type 0
HasSteps row n db =
    IsCounted db
    × (find? (λ r. r.id == row.id) db.cases ≡ some row)
    × (n ≤ case_steps row.id row.customer_id db)

le_if : (n m : ℕ) (b : Bool) → n ≤ m → n ≤ (if b then m + 1 else m)
le_if n m true h = omega arith
le_if n m false h = h

module _ (row : CaseRow) (n : ℕ) (c : CustomerId) (k : Option CaseId) (o : Option OrderId)
    (a : Actor) (ch : Channel) (p : Payload) (at : Instant) (id : ℕ) (db : Database) where
  abbrev pub next : StoredEvent
  next = event_row (as_given c k o a ch p) (last_seq c db.sequences + 1) at id

  -- When no event has a number above its customer's counter, the customer's next event raises the
  -- step count that the loaded log shows for a case by one, if the event is in the case's fold and
  -- counts as an agent step, and else leaves it as it is.
  pub next_steps :
      IsCounted db
      → (c == row.customer_id) ≡ true
      → case_steps row.id row.customer_id (with_event c k o a ch p at id db) ≡ (
          if in_case_fold row.customer_id row.id next && counts_as_agent_step p
          then case_steps row.id row.customer_id db + 1
          else case_steps row.id row.customer_id db)
  unfolding load_customer_events
  next_steps counted own =
      steps-own row.id row.customer_id db next counted
        (ap (λ d. last_seq d db.sequences + 1) (eq_of_== c row.customer_id own)) own

  grown :
      HasSteps row n db → n ≤ case_steps row.id row.customer_id (with_event c k o a ch p at id db)
  unfolding load_customer_events
  grown (counted, there, bound) = elim (Bool-cases (c == row.customer_id)) [
    | inl own ↦ rw (next_steps counted own) (le_if n _ _ bound)
    | inr other ↦
        (let same : case_steps row.id row.customer_id (with_event c k o a ch p at id db)
              ≡ case_steps row.id row.customer_id db =
            ap (λ es. steps_in row.id row.customer_id es)
              (load-other row.customer_id db next other) in
          omega (arith, bound, same))
  ]

HasSteps-Writes : (row : CaseRow) (n : ℕ) → Writes (λ w. HasSteps row n w.db)
unfolding load_customer_events
HasSteps-Writes row n = record {
  frames = record {
    on_time = λ w h. h;
    on_id = λ w h. h;
    on_commit = λ w h. h;
    on_restore = λ v w q s h. s;
  };
  on_event = λ c k o a ch p at id w catalogue h. (
    IsCounted-add c w.db.sequences w.db.events _ h.0 refl refl,
    h.1,
    grown row n c k o a ch p at id w.db h,
  );
  on_number = λ c w h. (
    All-mono (Counted w.db.sequences) (Counted (bump_seq c w.db.sequences))
        (Counted-bump c w.db.sequences) w.db.events h.0,
    h.1,
    h.2,
  );
  on_status = λ from to sel w permitted selects h. h;
  on_refund = λ r w pending fresh free h. h;
}

pub HasSteps-Sends : (row : CaseRow) (n : ℕ) → Sends (λ w. HasSteps row n w.db)
HasSteps-Sends row n = record { writes = HasSteps-Writes row n; on_sent = λ w o same h. h }

-- The case's own event of an agent's step.
pub HasSteps-step :
    (row : CaseRow) (n : ℕ) (o : Option OrderId) (a : Actor) (ch : Channel) (p : Payload)
    (at : Instant) (id : ℕ) (db : Database)
    → counts_as_agent_step p ≡ true
    → HasSteps row n db
    → HasSteps row (1 + n) (with_event row.customer_id (some row.id) o a ch p at id db)
unfolding in_case_fold
HasSteps-step row n o a ch p at id db counts h = (
  IsCounted-add row.customer_id db.sequences db.events _ h.0 refl refl,
  h.1,
  rw
      (next_steps row n row.customer_id (some row.id) o a ch p at id db h.0
        (==-refl row.customer_id))
      (ground (arith, h, counts, ==-refl row.customer_id, ==-refl row.id)),
)
