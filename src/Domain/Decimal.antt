-- ===== src/Domain/Decimal.antt =====
-- Python's `decimal.Decimal` as the program uses it: a value that may be a NaN or an infinity, or
-- (-1)^sign * coefficient * 10^exponent. Money that has been stored has the column's scale of two
-- decimals (`Numeric(12, 2)`) and is an integer number of cents. The sums that the program makes
-- have far fewer than the 28 digits of Python's default context, so they are exact.
pub mod Exact
pub mod Half
use refundagent.Common.{
  ℕ, ◌+◌, ◌-◌, ◌*◌, ◌/◌, ◌^◌, ◌==◌, ltb, Bool, true, false, ◌||◌, Option, none, some, if◌then◌else◌,
}
use refundagent.Common.Int.{ℤ, pos, negsuc, ◌+ℤ◌, leb_ℤ, pos_part, neg_part, signed}

pub data Decimal : Type 0 where
  nan : Decimal
  infinity : Bool → Decimal
  finite : Bool → ℕ → ℤ → Decimal

unfoldable pub is_finite : Decimal → Bool
is_finite (Decimal.finite s c e) = true
is_finite _ = false

-- `d <= 0`; the comparison raises on a NaN, which is `none`.
unfoldable pub at_most_zero? : Decimal → Option Bool
at_most_zero? Decimal.nan = none
at_most_zero? (Decimal.infinity s) = some s
at_most_zero? (Decimal.finite s c e) = some (s || c == 0)

-- `d.as_tuple().exponent < -2`, where the exponent is an integer.
unfoldable pub over_scaled : Decimal → Bool
over_scaled (Decimal.finite s c e) = ltb 2 (neg_part e)
over_scaled _ = false

-- The number of decimals beyond cents, and the coefficient at that scale.
abbrev pub extra_scale : ℤ → ℕ
extra_scale e = neg_part e - 2

abbrev pub coefficient_at : ℕ → ℤ → ℕ
coefficient_at c e = c * 10 ^ (pos_part e + 2 - neg_part e)

-- An integer multiplied by a natural number.
unfoldable pub scale_ℤ : ℤ → ℕ → ℤ
scale_ℤ (pos n) k = pos (n * k)
scale_ℤ (negsuc n) k = signed true ((n + 1) * k)

-- `base + d <= bound`, exactly, for money `base` and `bound` in cents.
unfoldable pub sum_at_most? : ℤ → Decimal → ℤ → Option Bool
unfolding scale_ℤ ◌+ℤ◌
sum_at_most? base Decimal.nan bound = none
sum_at_most? base (Decimal.infinity s) bound = some s
sum_at_most? base (Decimal.finite s c e) bound =
    let k = 10 ^ extra_scale e in
    some (leb_ℤ (scale_ℤ base k +ℤ signed s (coefficient_at c e)) (scale_ℤ bound k))

-- `d.quantize(Decimal("0.01"), rounding=ROUND_HALF_UP)` as cents: ties go away from zero. It raises
-- on an infinity, and where the result has more than the context's 28 digits; a NaN stays a NaN, and
-- `none` stands for it too.
unfoldable pub quantize_cents? : Decimal → Option ℤ
quantize_cents? (Decimal.finite s c e) =
    let k = 10 ^ extra_scale e in
    let rounded = (2 * coefficient_at c e + k) / (2 * k) in
    if ltb rounded (10 ^ 28) then some (signed s rounded) else none
quantize_cents? _ = none
