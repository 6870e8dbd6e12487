-- ===== src/Store/Append/Effect.antt =====
-- What an append does, on each branch: the event and its number, or what a raise leaves behind.
use refundagent.Common.{
  ◌+◌, Bool, true, false, ◌⊎◌, not, ◌||◌, ◌≡◌, refl, inl, inr, Option, [], ◌∷◌, ◌++◌, Option-cases,
  Bool-cases,
}
use refundagent.Domain.Enums.{Actor, Channel}
use refundagent.Domain.Events.{build_canonical_event}
use refundagent.Domain.Events.Catalogue.{as_given, InCatalogue, build-InCatalogue}
use refundagent.Domain.Payload.{Payload}
use refundagent.Domain.Result.{Result, ok, err, integrity_error, Result-cases}
use refundagent.Domain.Texts.{CustomerId, CaseId, OrderId}
use refundagent.Projection.Types.{StoredEvent}
use refundagent.Store.Append.{last_seq, bump_seq, event_row, collides, append_canonical_event}
use refundagent.Store.Queries.{find_customer, belongs, case_customer, order_customer}
use refundagent.Store.Session.{World, ◌>>=◌}

module _ (c : CustomerId) (k : Option CaseId) (o : Option OrderId) (a : Actor) (ch : Channel)
    (p : Payload) (w : World) where
  abbrev pub new_event : StoredEvent
  new_event =
      event_row (as_given c k o a ch p) (last_seq c w.db.sequences + 1) (w.clock w.ticks) w.next_id

  abbrev pub appended : World
  appended = record w {
    db = record w.db {
      sequences = bump_seq c w.db.sequences;
      events = w.db.events ++ new_event ∷ [];
    };
    ticks = w.ticks + 1;
    next_id = w.next_id + 1;
  }

  -- The state when the table of events refuses the event: its number, its time and its id are taken.
  abbrev pub numbered : World
  numbered = record w {
    db = record w.db { sequences = bump_seq c w.db.sequences };
    ticks = w.ticks + 1;
    next_id = w.next_id + 1;
  }

  -- A case or an order of another customer.
  abbrev pub foreign : Bool
  foreign =
      not (belongs c (λ i. case_customer i w.db) k)
      || not (belongs c (λ i. order_customer i w.db) o)

  -- The event is added, or nothing is: then nothing has changed, or its key is in the log already.
  abbrev pub Effect : Result StoredEvent × World → Type 0
  Effect (ok e, w') =
      (e ≡ new_event)
      × (w' ≡ appended)
      × (foreign ≡ false)
      × InCatalogue (as_given c k o a ch p)
      × (collides new_event w.db.events ≡ false)
  Effect (err x, w') =
      (w' ≡ w) ⊎ ((w' ≡ numbered) × (x ≡ integrity_error) × (collides new_event w.db.events ≡ true))

  -- An append that returns adds one event at the end of the log, with the given fields, the
  -- customer's next number, the clock's time and the next id, and takes these three; the event is
  -- in the catalogue, its case and order are the customer's own, and no earlier event has its id
  -- or its customer and number. An append that raises leaves the state as it was, or an earlier
  -- event has this key: then it raises an IntegrityError, the log is as it was, and the number,
  -- the time and the id are taken.
  pub append-Effect : Effect (append_canonical_event c k o a ch p w)
  unfolding append_canonical_event ◌>>=◌
  append-Effect = elim (Option-cases (find_customer c w.db)) [
    | inl unknown ↦ rw unknown (inl refl)
    | inr (row, known) ↦ elim (Result-cases (build_canonical_event c k o a ch p)) [
      | inr (x, refused) ↦ rw (known, refused) (inl refl)
      | inl (e, built) ↦
          let (same, catalogue) = build-InCatalogue c k o a ch p built in
          rw (known, built, same)
            (elim (Bool-cases foreign) [
              | inl refused ↦ rw refused (inl refl)
              | inr accepted ↦ elim (Bool-cases (collides new_event w.db.events)) [
                | inl taken ↦ rw (accepted, taken) (inr (refl, refl, taken))
                | inr new ↦ rw (accepted, new) (refl, refl, accepted, catalogue, new)
              ]
            ])
    ]
  ]
