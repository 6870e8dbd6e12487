-- ===== src/Common/Chars/Absent.antt =====
-- What a text does not contain, it does not contain after another text has been put into it, where the
-- two share no ends.
use refundagent.Common.Chars.{Chars, starts_with, occurs, take, replace_from}
use refundagent.Common.Tests.{Bool-cases, ◌==◌}
use Prim.Native.Nat.{ℕ, zero, suc}
use mathlib.Core.Path.{◌≡◌, refl}
use mathlib.Core.Logic.{inl, inr}
use mathlib.Core.Bool.{Bool, true, false, ◌&&◌, ◌||◌}
use mathlib.Core.List.{[], ◌∷◌, ◌++◌}
use native.Mathlib.Omega.{arith}

-- One text starts with the other.
abbrev agree : Chars → Chars → Bool
agree [] t = true
agree (c ∷ s) [] = true
agree (c ∷ s) (d ∷ t) = c == d && agree s t

-- An occurrence of `s` may begin in `new`, or run into it from before.
abbrev begins_inside : Chars → Chars → Bool
begins_inside s [] = false
begins_inside s (d ∷ t) = agree s (d ∷ t) || begins_inside s t

abbrev runs_into : Chars → Chars → Bool
runs_into [] new = false
runs_into (c ∷ s) new = agree (c ∷ s) new || runs_into s new

abbrev pub IsApart : Chars → Chars → Type 0
IsApart new s = (runs_into s new ≡ false) × (begins_inside s new ≡ false)

agree-starts : (s new rest : Chars) → starts_with s (new ++ rest) ≡ true → agree s new ≡ true
unfolding starts_with
agree-starts [] new rest h = refl
agree-starts (c ∷ s) [] rest h = refl
agree-starts (c ∷ s) (d ∷ new) rest h = ground (arith, h, agree-starts s new rest)

agree_self : (s new : Chars) → starts_with s new ≡ true → agree s new ≡ true
unfolding starts_with
agree_self [] new h = refl
agree_self (c ∷ s) [] h = refl
agree_self (c ∷ s) (d ∷ new) h = ground (arith, h, agree_self s new)

occurs-inside :
    (s new rest : Chars) → begins_inside s new ≡ false → occurs s (new ++ rest) ≡ occurs s rest
unfolding occurs
occurs-inside s [] rest h = refl
occurs-inside s (d ∷ new) rest h = elim (Bool-cases (starts_with s (d ∷ (new ++ rest)))) [
  | inl hit ↦ ground (arith, h, agree-starts s (d ∷ new) rest hit)
  | inr miss ↦ rw miss (occurs-inside s new rest (ground (arith, h)))
]

module _ (old : Chars) (n : ℕ) (new : Chars) where
  starts-replace :
      (v t : Chars)
      → runs_into v new ≡ false
      → starts_with v (replace_from zero old n new t) ≡ true
      → starts_with v t ≡ true
  unfolding replace_from
  starts-replace [] t apart h = refl
  starts-replace (x ∷ v) [] apart h = h
  starts-replace (x ∷ v) (c ∷ t) apart h = elim (Bool-cases (starts_with old (c ∷ t))) [
    | inl hit ↦
        (let met = agree-starts (x ∷ v) new (replace_from n old n new t) (rw hit at h) in
          ground (arith, met, apart))
    | inr miss ↦ (let begun = rw miss at h in ground (arith, begun, apart, starts-replace v t))
  ]

  -- A text that was absent stays absent.
  pub absent-replace :
      (s : Chars) (skip : ℕ) (t : Chars)
      → IsApart new s
      → occurs s t ≡ false
      → occurs s (replace_from skip old n new t) ≡ false
  unfolding occurs replace_from
  absent-replace s skip [] apart h = refl
  absent-replace s (suc skip) (c ∷ t) apart h = absent-replace s skip t apart (ground (arith, h))
  absent-replace s zero (c ∷ t) apart h = elim (Bool-cases (starts_with old (c ∷ t))) [
    | inl hit ↦
        rw (hit, occurs-inside s new (replace_from n old n new t) apart.1)
          (absent-replace s n t apart (ground (arith, h)))
    | inr miss ↦ rw miss (elim (Bool-cases (starts_with s (c ∷ replace_from zero old n new t))) [
      | inl begun ↦
          (let before = starts-replace s (c ∷ t) apart.0 (rw miss begun) in
            ground (arith, before, h))
      | inr other ↦ rw other (absent-replace s zero t apart (ground (arith, h)))
    ])
  ]

  -- What was replaced is absent.
  pub absent-replaced :
      (skip : ℕ) (t : Chars) → IsApart new old → occurs old (replace_from skip old n new t) ≡ false
  unfolding occurs replace_from
  absent-replaced skip [] apart = refl
  absent-replaced (suc skip) (c ∷ t) apart = absent-replaced skip t apart
  absent-replaced zero (c ∷ t) apart = elim (Bool-cases (starts_with old (c ∷ t))) [
    | inl hit ↦
        rw (hit, occurs-inside old new (replace_from n old n new t) apart.1)
          (absent-replaced n t apart)
    | inr miss ↦ rw miss (elim (Bool-cases (starts_with old (c ∷ replace_from zero old n new t))) [
      | inl begun ↦ (let before = starts-replace old (c ∷ t) apart.0 (rw miss begun) in cc)
      | inr other ↦ rw other (absent-replaced zero t apart)
    ])
  ]

starts-take :
    (s : Chars) (n : ℕ) (t : Chars) → starts_with s (take n t) ≡ true → starts_with s t ≡ true
unfolding starts_with
starts-take [] n t h = refl
starts-take (c ∷ s) zero t h = cc
starts-take (c ∷ s) (suc n) [] h = h
starts-take (c ∷ s) (suc n) (d ∷ t) h = ground (arith, h, starts-take s n t)

pub absent-take : (s : Chars) (n : ℕ) (t : Chars) → occurs s t ≡ false → occurs s (take n t) ≡ false
unfolding occurs
absent-take s zero t h = refl
absent-take s (suc n) [] h = refl
absent-take s (suc n) (d ∷ t) h =
    ground (arith, h, starts-take s (suc n) (d ∷ t), absent-take s n t)

starts-append :
    (v t new : Chars)
    → runs_into v new ≡ false
    → starts_with v (t ++ new) ≡ true
    → starts_with v t ≡ true
unfolding starts_with
starts-append [] t new apart h = refl
starts-append (x ∷ v) [] new apart h = ground (arith, apart, agree_self (x ∷ v) new h)
starts-append (x ∷ v) (c ∷ t) new apart h = ground (arith, apart, h, starts-append v t new)

absent-inside : (s new : Chars) → begins_inside s new ≡ false → occurs s new ≡ false
unfolding occurs
absent-inside s [] h = refl
absent-inside s (d ∷ new) h = ground (arith, h, agree_self s (d ∷ new), absent-inside s new)

-- Nothing absent comes up at the joint with what is put at the end.
pub absent-append :
    (s t new : Chars) → IsApart new s → occurs s t ≡ false → occurs s (t ++ new) ≡ false
unfolding occurs
absent-append s [] new apart h = absent-inside s new apart.1
absent-append s (c ∷ t) new apart h =
    ground (arith, h, starts-append s (c ∷ t) new apart.0, absent-append s t new apart)
