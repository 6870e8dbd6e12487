-- ===== src/Agent/Prompt/Build/Disclosure.antt =====
-- A prompt shows nothing of the orders that are not the customer's own or were not listed.
use refundagent.Common.{
  ◌&&◌, ◌==◌, contains, filter, Bool, true, false, List, [], ◌∷◌, ◌≡◌, refl, sym, ◌∙◌,
  if◌then◌else◌,
}
use refundagent.Agent.Prompt.Build.{build_prompt, prompt_state, render_memory}
use refundagent.Agent.Prompt.Memory.{memory_records}
use refundagent.Agent.Prompt.State.{
  OrderSeedView, disclosed_order_ids, scope_order_seeds_for_disclosure,
}
use refundagent.Domain.Texts.{CustomerId, OrderId}
use refundagent.Projection.Case.{CaseSummary}
use refundagent.Projection.Customer.{CustomerSummary}
use refundagent.Projection.Types.{StoredEvent}

-- An order of the customer's own that was disclosed.
abbrev pub is_disclosed : CustomerId → List OrderId → OrderSeedView → Bool
is_disclosed c ids seed = contains ids seed.order_id && seed.customer_id == c

nothing_disclosed :
    (seeds : List OrderSeedView) (c : CustomerId) → scope_order_seeds_for_disclosure seeds [] c ≡ []
unfolding scope_order_seeds_for_disclosure
nothing_disclosed [] c = refl
nothing_disclosed (s ∷ seeds) c = nothing_disclosed seeds c

module _ (seeds others : List OrderSeedView) (c : CustomerId) (ids : List OrderId)
    (same : filter (is_disclosed c ids) seeds ≡ filter (is_disclosed c ids) others) where
  scoped_alike :
      scope_order_seeds_for_disclosure seeds ids c ≡ scope_order_seeds_for_disclosure others ids c
  unfolding scope_order_seeds_for_disclosure
  scoped_alike = same

  listed_alike :
      (listed : Bool)
      → scope_order_seeds_for_disclosure seeds (if listed then ids else []) c
        ≡ scope_order_seeds_for_disclosure others (if listed then ids else []) c
  listed_alike true = scoped_alike
  listed_alike false = nothing_disclosed seeds c ∙ sym (nothing_disclosed others c)

-- Two lists of orders with the same entries among the customer's own orders that the latest
-- listing disclosed give the same prompt, text and state, or the same error: a prompt depends on
-- no order of another customer and on none that was not disclosed.
pub build_prompt_disclosed :
    (case : CaseSummary) (customer : CustomerSummary) (case_events : List StoredEvent)
    (seeds others : List OrderSeedView)
    → filter (is_disclosed case.customer_id (disclosed_order_ids case_events)) seeds
      ≡ filter (is_disclosed case.customer_id (disclosed_order_ids case_events)) others
    → build_prompt case customer case_events seeds ≡ build_prompt case customer case_events others
unfolding build_prompt prompt_state render_memory memory_records
build_prompt_disclosed case customer case_events seeds others same =
    let ids = disclosed_order_ids case_events in
    rw
      (
        listed_alike seeds others case.customer_id ids same case.orders_listed,
        scoped_alike seeds others case.customer_id ids same,
      )
      refl
