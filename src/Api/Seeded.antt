-- ===== src/Api/Seeded.antt =====
-- The program from its start: an empty database, repositories/seed.py, and then requests.
use refundagent.Common.{subst, sym, ap, ℕ, String, List, [], ◌∷◌, ◌≡◌, refl, arith, map, none}
use refundagent.Agent.Boundary.{Environment}
use refundagent.Api.Log.{IsNumbered, IsCatalogued, serve_all-IsNumbered, serve_all-IsCatalogued}
use refundagent.Api.Payments.{IsPaidFor, serve_all-IsPaidFor}
use refundagent.Api.Refunds.{HasOneLive, serve_all-HasOneLive}
use refundagent.Api.Server.{Request, serve_all}
use refundagent.Domain.Enums.{Actor, Channel, VerificationMethod}
use refundagent.Domain.Events.{build_canonical_event}
use refundagent.Domain.Payload.{Payload}
use refundagent.Projection.Types.{StoredEvent}
use refundagent.Domain.Result.{Result, ok}
use refundagent.Domain.Texts.{Instant}
use refundagent.Store.Append.{append_canonical_event}
use refundagent.Store.Rows.{Database}
use refundagent.Store.Keeps.Stable.{Both}
use refundagent.Store.Seed.{
  SeedProfile, seed_database, insert_customer, insert_orders, seed_order_specs_for_profile,
  sophie_email, tom_email, order_row,
}
use refundagent.Store.Session.{World, in_transaction, ◌>>=◌}

-- New tables, and adapters that have done nothing.
abbrev pub blank : (ℕ → Instant) → World
blank clock = record {
  db = record {
    customers = [];
    orders = [];
    cases = [];
    sequences = [];
    events = [];
    refunds = [];
  };
  durable = record {
    customers = [];
    orders = [];
    cases = [];
    sequences = [];
    events = [];
    refunds = [];
  };
  outside = record { calls = []; provider_refs = []; outbox = []; escalations = [] };
  clock = clock;
  ticks = 0;
  next_id = 1;
}

-- What the theorems on all requests keep.
pub record IsSound (w : World) : Type 0 where
  pub paid : IsPaidFor w
  pub one_live : Both (λ db. HasOneLive db.refunds) w
  pub numbered : Both IsNumbered w
  pub catalogued : Both IsCatalogued w

module _ (lower : String → String) (profile : SeedProfile) (clock : ℕ → Instant) where
  unfoldable pub seeded : Result (Unit {0}) × World
  unfolding in_transaction seed_database
  seeded = in_transaction (seed_database lower profile) (blank clock)

  abbrev verification : StoredEvent
  verification = record {
    id = 1;
    customer_id = 1;
    case_id = none;
    order_id = none;
    seq = 1;
    actor = Actor.system;
    channel = Channel.internal;
    payload = Payload.customer_verified VerificationMethod.seed;
    created_at = clock 0;
  }

  abbrev seeded_database : Database
  seeded_database = record {
    customers =
        record { id = 1; email = sophie_email; name = "Sophie Dubois" }
        ∷ record { id = 2; email = tom_email; name = "Tom Verhoeven" }
        ∷ [];
    orders = map order_row (seed_order_specs_for_profile profile);
    cases = [];
    sequences = (1, 1) ∷ [];
    events = verification ∷ [];
    refunds = [];
  }

  abbrev seeded_world : World
  seeded_world = record (blank clock) {
    db = seeded_database;
    durable = seeded_database;
    ticks = 1;
    next_id = 2;
  }

  seeded-world :
      lower sophie_email ≡ sophie_email
      → lower tom_email ≡ tom_email
      → seeded ≡ (ok tt, seeded_world)
  unfolding seeded insert_customer insert_orders seed_order_specs_for_profile append_canonical_event
      ◌>>=◌ build_canonical_event
  seeded-world hs ht = rw (hs, ht) refl

  numbered : IsNumbered seeded_database
  numbered = ((omega arith, tt), (tt, tt))

  catalogued : IsCatalogued seeded_database
  catalogued = (record { scope = (refl, refl); actor = refl; channel = refl }, tt)

  IsSound-start : IsSound seeded_world
  IsSound-start = record {
    paid = tt;
    one_live = (tt, tt);
    numbered = (numbered, numbered);
    catalogued = (catalogued, catalogued);
  }

  module _ (env : Environment) (loop_fuel queue_fuel : ℕ) where
    IsSound-serve_all :
        (qs : List Request) (w : World)
        → IsSound w
        → IsSound (serve_all lower env loop_fuel queue_fuel qs w)
    IsSound-serve_all qs w s = record {
      paid = serve_all-IsPaidFor lower env loop_fuel queue_fuel qs w s.paid;
      one_live = serve_all-HasOneLive lower env loop_fuel queue_fuel qs w s.one_live;
      numbered = serve_all-IsNumbered lower env loop_fuel queue_fuel qs w s.numbered;
      catalogued = serve_all-IsCatalogued lower env loop_fuel queue_fuel qs w s.catalogued;
    }

    -- Where `str.lower` leaves the two seeded addresses as they are, the seed of either profile is
    -- committed into new tables, and after any list of requests from there each call of the
    -- payment provider is for a refund row with its key and amount that is approved or executed,
    -- no order has two pending or approved refunds, events are numbered without repeats within the
    -- counters, and each event is as the catalogue wants it, in the session's database and as
    -- committed.
    pub seeded-IsSound :
        (qs : List Request)
        → lower sophie_email ≡ sophie_email
        → lower tom_email ≡ tom_email
        → (seeded.0 ≡ ok tt) × IsSound (serve_all lower env loop_fuel queue_fuel qs seeded.1)
    seeded-IsSound qs hs ht =
        let same = seeded-world hs ht in
        (
          ap (λ r. r.0) same,
          subst (λ r. IsSound (serve_all lower env loop_fuel queue_fuel qs r.1)) (sym same)
              (IsSound-serve_all qs seeded_world IsSound-start),
        )
