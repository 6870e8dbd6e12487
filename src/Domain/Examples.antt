-- ===== src/Domain/Examples.antt =====
-- The theorems on events and amounts at an order link and at 12.5, which is 12.50.
use refundagent.Common.{ℕ, ◌+◌, ◌*◌, ◌^◌, ◌↔◌, some, false, ◌≡◌, refl, arith}
use refundagent.Common.Int.{pos, negsuc, pos_part, neg_part, leb_ℤ, ◌+ℤ◌}
use refundagent.Domain.Decimal.{Decimal, coefficient_at, sum_at_most?, quantize_cents?}
use refundagent.Domain.Decimal.Exact.{sum_at_most?-sane}
use refundagent.Domain.Decimal.Half.{IsHalfUp, within_context, quantize_cents?-IsHalfUp}
use refundagent.Domain.Enums.{Actor, Channel}
use refundagent.Domain.Events.{CanonicalEvent, build_canonical_event}
use refundagent.Domain.Events.Catalogue.{as_given, InCatalogue, built_iff}
use refundagent.Domain.Payload.{Payload}
use refundagent.Domain.Result.{ok}

abbrev link : CanonicalEvent
link = as_given 1 (some 2) (some 1001) Actor.agent Channel.internal (Payload.order_linked 1001)

builds :
    build_canonical_event 1
      (some 2)
      (some 1001)
      Actor.agent
      Channel.internal
      (Payload.order_linked 1001)
    ≡ ok link
unfolding build_canonical_event
builds = refl

built_iff_example :
    (build_canonical_event 1
        (some 2)
        (some 1001)
        Actor.agent
        Channel.internal
        (Payload.order_linked 1001)
      ≡ ok link)
    ↔ ((link ≡ link) × InCatalogue link)
built_iff_example =
    built_iff 1 (some 2) (some 1001) Actor.agent Channel.internal (Payload.order_linked 1001) link

sum_at_most?-sane_example :
    sum_at_most? (pos 100) (Decimal.finite false 125 (negsuc 0)) (pos 1350)
    ≡ some (leb_ℤ (pos 100 +ℤ pos (coefficient_at 125 (negsuc 0))) (pos 1350))
sum_at_most?-sane_example = sum_at_most?-sane (pos 100) (pos 1350) 125 (negsuc 0) (omega arith)

-- 0.125, a tie
quantize_cents?-IsHalfUp_example :
    (r : ℕ) × IsHalfUp (125 * 10 ^ (pos_part (negsuc 2) + 2)) (10 ^ neg_part (negsuc 2)) r
    × (quantize_cents? (Decimal.finite false 125 (negsuc 2)) ≡ within_context false r)
quantize_cents?-IsHalfUp_example = quantize_cents?-IsHalfUp false 125 (negsuc 2)

tie_goes_up : quantize_cents? (Decimal.finite false 125 (negsuc 2)) ≡ some (pos 13)
unfolding quantize_cents?
tie_goes_up = refl
