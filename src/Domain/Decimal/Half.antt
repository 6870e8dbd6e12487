-- ===== src/Domain/Decimal/Half.antt =====
-- `quantize` to cents rounds half up, whatever the exponent.
use refundagent.Common.{
  ℕ, zero, suc, ◌+◌, ◌-◌, ◌*◌, ◌/◌, ◌^◌, ◌≤◌, ◌<◌, ◌≡◌, ap, ◌∙◌, Bool, Option, some, none, ltb,
  if◌then◌else◌, arith,
}
use refundagent.Common.Int.{ℤ, pos, negsuc, pos_part, neg_part, signed}
use refundagent.Domain.Decimal.{Decimal, extra_scale, coefficient_at, quantize_cents?}

-- `r` is the whole number nearest to n / d, the larger one at a tie.
abbrev pub IsHalfUp : ℕ → ℕ → ℕ → Type 0
IsHalfUp n d r = (2 * (r * d) ≤ 2 * n + d) × (2 * n + d < 2 * (r * d) + 2 * d)

rounds : (n k : ℕ) → 0 < k → IsHalfUp n k ((2 * n + k) / (2 * k))
rounds n k positive = (omega arith, omega arith)

-- The same number at a hundred times the scale.
in_cents : (n k r : ℕ) → IsHalfUp n k r → IsHalfUp (n * 100) (100 * k) r
in_cents n k r (low, high) = (omega arith, omega arith)

power_positive : (n : ℕ) → 0 < 10 ^ n
power_positive zero = omega arith
power_positive (suc n) = omega (arith, power_positive n)

-- The result when it has no more digits than the context.
abbrev pub within_context : Bool → ℕ → Option ℤ
within_context s r = if ltb r (10 ^ 28) then some (signed s r) else none

same_result : (s : Bool) (q r : ℕ) → q ≡ r → within_context s q ≡ within_context s r
same_result s q r h = ap (within_context s) h

halves : (n : ℕ) → (2 * n + 1) / 2 ≡ n
halves n = omega arith

less_nothing : (n : ℕ) → n - 0 ≡ n
less_nothing n = omega arith

whole : (n : ℕ) → IsHalfUp n 1 n
whole n = (omega arith, omega arith)

beyond_cents : (n : ℕ) → suc (suc (suc n)) - 2 ≡ suc n
beyond_cents n = omega arith

not_scaled_up : (n : ℕ) → 2 - suc (suc (suc n)) ≡ 0
not_scaled_up n = omega arith

hundredfold : (n : ℕ) → 100 * 10 ^ suc n ≡ 10 ^ suc (suc (suc n))
hundredfold n = omega arith

same_quotient :
    (c n : ℕ)
    → (2 * coefficient_at c (negsuc (suc (suc n))) + 10 ^ extra_scale (negsuc (suc (suc n))))
        / (2 * 10 ^ extra_scale (negsuc (suc (suc n))))
      ≡ (2 * c + 10 ^ suc n) / (2 * 10 ^ suc n)
same_quotient c n =
    rw (beyond_cents n, not_scaled_up n)
      (ap (λ m. (2 * m + 10 ^ suc n) / (2 * 10 ^ suc n)) (let one : c * 1 ≡ c = omega arith in one))

-- Quantizing a finite decimal gives, with its sign, a whole number of cents nearest to its
-- coefficient times its power of ten, the one further from zero at a tie, when that number has at
-- most 28 digits; otherwise it raises.
pub quantize_cents?-IsHalfUp :
    (s : Bool) (c : ℕ) (e : ℤ)
    → (r : ℕ) × IsHalfUp (c * 10 ^ (pos_part e + 2)) (10 ^ neg_part e) r
      × (quantize_cents? (Decimal.finite s c e) ≡ within_context s r)
unfolding quantize_cents?
quantize_cents?-IsHalfUp s c (pos p) = (
  c * 10 ^ (p + 2),
  whole (c * 10 ^ (p + 2)),
  same_result s _ (c * 10 ^ (p + 2))
      (ap (λ m. (2 * (c * 10 ^ m) + 1) / 2) (less_nothing (p + 2)) ∙ halves (c * 10 ^ (p + 2))),
)
quantize_cents?-IsHalfUp s c (negsuc zero) =
    (c * 10, (omega arith, omega arith), same_result s _ (c * 10) (halves (c * 10)))
quantize_cents?-IsHalfUp s c (negsuc (suc zero)) =
    (c, (omega arith, omega arith), same_result s _ c (omega arith))
quantize_cents?-IsHalfUp s c (negsuc (suc (suc n))) =
    let k = 10 ^ suc n in
    (
      (2 * c + k) / (2 * k),
      rw (← hundredfold n) (in_cents c k _ (rounds c k (power_positive (suc n)))),
      same_result s _ ((2 * c + k) / (2 * k)) (same_quotient c n),
    )
