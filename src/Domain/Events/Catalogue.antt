-- ===== src/Domain/Events/Catalogue.antt =====
-- The catalogue of domain/events.py as a predicate, and what `build_canonical_event` accepts.
use refundagent.Common.{
  ◌↔◌, ◌∙◌, sym, ap, ◌≡◌, ◌≢◌, Option, none, Bool, true, false, not, ◌||◌, arith,
}
use refundagent.Domain.Enums.{Actor, Channel, same_actor, same_channel}
use refundagent.Domain.Payload.{Payload, event_type}
use refundagent.Domain.Result.{ok, raise_if-eq-ok, invalid_event_scope, invalid_actor_channel}
use refundagent.Domain.Texts.{CustomerId, CaseId, OrderId}
use refundagent.Domain.Events.{
  CanonicalEvent, Scope, scope_of, scope_violated, expected_actor, expected_channel,
  build_canonical_event,
}

-- The identifiers that an event of a scope carries.
abbrev pub InScope : Scope → Option CaseId → Option OrderId → Type 0
InScope Scope.customer_scoped k o = (k ≡ none) × (o ≡ none)
InScope Scope.case_and_order_scoped k o = (k ≢ none) × (o ≢ none)
InScope Scope.case_scoped k o = (k ≢ none) × (o ≡ none)

-- An event as the catalogue wants it.
pub record InCatalogue (e : CanonicalEvent) : Type 0 where
  pub scope : InScope (scope_of (event_type e.payload)) e.case_id e.order_id
  pub actor : e.actor ≡ expected_actor e.payload
  pub channel : e.channel ≡ expected_channel e.payload

eq_of_same_actor : (a b : Actor) → same_actor a b ≡ true → a ≡ b
eq_of_same_actor a b h = ground arith

eq_of_same_channel : (a b : Channel) → same_channel a b ≡ true → a ≡ b
eq_of_same_channel a b h = ground arith

same_actor_refl : (a : Actor) → same_actor a a ≡ true
same_actor_refl a = ground arith

same_channel_refl : (a : Channel) → same_channel a a ≡ true
same_channel_refl a = ground arith

in_scope :
    (s : Scope) (k : Option CaseId) (o : Option OrderId)
    → scope_violated s k o ≡ false
    → InScope s k o
in_scope s k o h = ground arith

not_violated :
    (s : Scope) (k : Option CaseId) (o : Option OrderId)
    → InScope s k o
    → scope_violated s k o ≡ false
not_violated s k o h = ground arith

both_true : (x y : Bool) → (not x || not y) ≡ false → (x ≡ true) × (y ≡ true)
both_true x y h = ground arith

module _ (c : CustomerId) (k : Option CaseId) (o : Option OrderId) (a : Actor) (ch : Channel)
    (p : Payload) where
  -- An event with the given fields, unchecked.
  abbrev pub as_given : CanonicalEvent
  as_given = record {
    customer_id = c;
    case_id = k;
    order_id = o;
    actor = a;
    channel = ch;
    payload = p;
  }

  -- An event that is built has exactly the given fields, and it has the scope, the actor and the
  -- channel that the catalogue wants for its type.
  pub build-InCatalogue :
      {e : CanonicalEvent}
      → build_canonical_event c k o a ch p ≡ ok e
      → (e ≡ as_given) × InCatalogue as_given
  unfolding build_canonical_event
  build-InCatalogue h =
      let (in_scope_test, rest) = raise_if-eq-ok _ invalid_event_scope _ h in
      let (actor_test, built) = raise_if-eq-ok _ invalid_actor_channel _ rest in
      let (same_a, same_ch) = both_true _ _ actor_test in
      (
        cc,
        record {
          scope = in_scope _ k o in_scope_test;
          actor = eq_of_same_actor a _ same_a;
          channel = eq_of_same_channel ch _ same_ch;
        },
      )

  -- Fields with the scope, the actor and the channel that the catalogue wants for the type are
  -- always built.
  pub build_complete : InCatalogue as_given → build_canonical_event c k o a ch p ≡ ok as_given
  unfolding build_canonical_event
  build_complete h =
      rw (not_violated _ k o h.scope, ← h.actor, ← h.channel, same_actor_refl, same_channel_refl)

  -- Building an event returns an event exactly when this one has the given fields and the scope,
  -- the actor and the channel that the catalogue wants for its type.
  pub built_iff :
      (e : CanonicalEvent)
      → (build_canonical_event c k o a ch p ≡ ok e) ↔ ((e ≡ as_given) × InCatalogue as_given)
  built_iff e = (build-InCatalogue, λ (same, h). build_complete h ∙ sym (ap ok same))
