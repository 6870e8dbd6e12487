-- ===== src/Domain/Decimal/Exact.antt =====
-- On a positive amount of at most two decimals, comparison and quantization are exact in cents.
use refundagent.Common.{ℕ, ◌^◌, ◌≤◌, ◌<◌, ◌≡◌, ◌∙◌, ap, refl, false, some, arith}
use refundagent.Common.Int.{int_laws, ℤ, pos, negsuc, ◌+ℤ◌, leb_ℤ, neg_part}
use refundagent.Domain.Decimal.{
  Decimal, extra_scale, coefficient_at, scale_ℤ, sum_at_most?, quantize_cents?,
}

extra_scale_none : (e : ℤ) → neg_part e ≤ 2 → 10 ^ extra_scale e ≡ 1
extra_scale_none (pos n) h = refl
extra_scale_none (negsuc n) h = let z : extra_scale (negsuc n) ≡ 0 = omega arith in rw z

scale_ℤ-one : (z : ℤ) → scale_ℤ z 1 ≡ z
unfolding scale_ℤ
scale_ℤ-one (pos n) = ground arith
scale_ℤ-one (negsuc n) = ground arith

zero-+ℤ : (z : ℤ) → pos 0 +ℤ z ≡ z
zero-+ℤ z = omega int_laws

-- For a nonnegative amount of at most two decimals, `base + amount <= bound` is decided as the
-- comparison of whole numbers of cents.
pub sum_at_most?-sane :
    (base bound : ℤ) (c : ℕ) (e : ℤ)
    → neg_part e ≤ 2
    → sum_at_most? base (Decimal.finite false c e) bound
      ≡ some (leb_ℤ (base +ℤ pos (coefficient_at c e)) bound)
unfolding sum_at_most?
sum_at_most?-sane base bound c e sane = let k = extra_scale_none e sane in simp (k, scale_ℤ-one)

-- A single amount is compared in cents.
pub at_most?-sane :
    (bound : ℤ) (c : ℕ) (e : ℤ)
    → neg_part e ≤ 2
    → sum_at_most? (pos 0) (Decimal.finite false c e) bound
      ≡ some (leb_ℤ (pos (coefficient_at c e)) bound)
at_most?-sane bound c e sane =
    sum_at_most?-sane (pos 0) bound c e sane
    ∙ ap (λ z. some (leb_ℤ z bound)) (zero-+ℤ (pos (coefficient_at c e)))

-- Quantization of a nonnegative amount of at most two decimals, with fewer than 29 digits in
-- cents, keeps the amount as it is.
pub quantize_cents?-sane :
    (c : ℕ) (e : ℤ)
    → neg_part e ≤ 2
    → coefficient_at c e < 10 ^ 28
    → quantize_cents? (Decimal.finite false c e) ≡ some (pos (coefficient_at c e))
unfolding quantize_cents?
quantize_cents?-sane c e sane fits = rw (extra_scale_none e sane) (ground arith)
