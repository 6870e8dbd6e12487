-- ===== src/Agent/Prompt/Build/Total.antt =====
-- The history of a case is bounded: where every record is left out, its count fits.
use refundagent.Common.{
  ℕ, zero, suc, ◌+◌, ◌*◌, ◌/◌, ◌%◌, ◌^◌, ◌≤◌, ◌<◌, ◌==◌, ltb, List, [], ◌∷◌, ◌++◌, map, length, ◌≡◌,
  ap, ◌⊎◌, leb, Bool, refl, true, false, inl, inr, Bool-cases, eq_of_==, arith,
}
use refundagent.Common.Chars.{Chars, codes, digit, digits_onto, decimal}
use refundagent.Common.Json.{Json, utf8_length, has_surrogate}
use refundagent.Agent.Prompt.Build.{serialize_memory, fits, bounded_from, serialize_bounded_memory}
use refundagent.Agent.Prompt.Build.Elision.{IsLeast-here, IsBounded, IsBounded-next}
use refundagent.Config
use refundagent.Domain.Result.{ok, err, unicode_error}

utf8_length-append : (s t : Chars) → utf8_length (s ++ t) ≡ utf8_length s + utf8_length t
unfolding utf8_length
utf8_length-append [] t = omega arith
utf8_length-append (c ∷ s) t = omega (arith, utf8_length-append s t)

length-digits_onto :
    (k rounds n : ℕ) (rest : List ℕ)
    → n < 10 ^ suc k
    → length (digits_onto rounds n rest) ≤ suc k + length rest
unfolding digits_onto
length-digits_onto k zero n rest h = omega arith
length-digits_onto zero (suc rounds) n rest h = ground arith
length-digits_onto (suc k) (suc rounds) n rest h = elim (Bool-cases (ltb n 10)) [
  | inl one ↦ rw one (omega arith)
  | inr more ↦ rw more (
      let less : n / 10 < 10 ^ suc k = omega arith in
      let more_digits : length (digits_onto rounds (n / 10) ((n % 10) ∷ rest))
          ≤ suc k + suc (length rest) =
        length-digits_onto k rounds (n / 10) ((n % 10) ∷ rest) less in
      omega (arith, more_digits))
]

utf8_length-digits : (ds : List ℕ) → utf8_length (map digit ds) ≤ 4 * length ds
unfolding utf8_length
utf8_length-digits [] = omega arith
utf8_length-digits (d ∷ ds) = ground (arith, utf8_length-digits ds)

-- Twenty digits at most.
utf8_length-decimal : (n : ℕ) → n < 10 ^ 20 → utf8_length (decimal n) ≤ 80
unfolding decimal
utf8_length-decimal n h =
    omega
      (arith, utf8_length-digits (digits_onto (suc n) n []), length-digits_onto 19 (suc n) n [] h)

abbrev before : Chars
before =
    codes
      "[\n  {\n    \"provenance\": \"SYSTEM_FEEDBACK\",\n    \"kind\": \"elided\",\n    \"count\": "

abbrev behind : Chars
behind = codes "\n  }"

abbrev last : Chars
last = codes "\n]"

all_elided :
    (n : ℕ)
    → (n == 0) ≡ false
    → serialize_memory n [] ≡ before ++ (((decimal n ++ []) ++ behind) ++ last)
unfolding serialize_memory
all_elided n h = rw h refl

none_elided : serialize_memory 0 [] ≡ codes "[]"
unfolding serialize_memory
none_elided = refl

has_surrogate-append :
    (s t : Chars)
    → has_surrogate s ≡ false
    → has_surrogate t ≡ false
    → has_surrogate (s ++ t) ≡ false
has_surrogate-append [] t hs ht = ht
has_surrogate-append (c ∷ s) t hs ht = ground (arith, has_surrogate-append s t)

has_surrogate-digits :
    (rounds n : ℕ) (rest : List ℕ)
    → has_surrogate (map digit rest) ≡ false
    → has_surrogate (map digit (digits_onto rounds n rest)) ≡ false
unfolding digits_onto
has_surrogate-digits zero n rest h = h
has_surrogate-digits (suc rounds) n rest h =
    let more : has_surrogate (map digit (digits_onto rounds (n / 10) ((n % 10) ∷ rest))) ≡ false =
      has_surrogate-digits rounds (n / 10) ((n % 10) ∷ rest) (ground arith) in
    elim (Bool-cases (ltb n 10)) [ inl one ↦ rw one (ground arith) | inr longer ↦ rw longer more ]

has_surrogate-decimal : (n : ℕ) → has_surrogate (decimal n) ≡ false
unfolding decimal
has_surrogate-decimal n = has_surrogate-digits (suc n) n [] refl

small_enough : (a b : ℕ) → a ≤ b → leb a b ≡ true
small_enough a b h = ground arith

fits_of_le :
    (s : Chars)
    → has_surrogate s ≡ false
    → utf8_length s ≤ Config.prompt_memory_serialized_max_bytes
    → fits s ≡ ok true
fits_of_le s scalar h = rw scalar (ap ok (small_enough (utf8_length s) _ h))

all_elided-fits : (n : ℕ) → n < 10 ^ 20 → fits (serialize_memory n []) ≡ ok true
unfolding utf8_length
all_elided-fits n h = elim (Bool-cases (n == 0)) [
  | inl nothing ↦ rw (eq_of_== n 0 nothing, none_elided) refl
  | inr some_left_out ↦ rw (all_elided n some_left_out) (
      fits_of_le (before ++ (((decimal n ++ []) ++ behind) ++ last))
        (has_surrogate-append before (((decimal n ++ []) ++ behind) ++ last) refl (
          has_surrogate-append ((decimal n ++ []) ++ behind) last
            (has_surrogate-append (decimal n ++ []) behind
              (has_surrogate-append (decimal n) [] (has_surrogate-decimal n) refl) refl)
            refl))
        (omega (
          arith,
          utf8_length-append before (((decimal n ++ []) ++ behind) ++ last),
          utf8_length-append ((decimal n ++ []) ++ behind) last,
          utf8_length-append (decimal n ++ []) behind,
          utf8_length-append (decimal n) [],
          utf8_length-decimal n h,
        )))
]

-- A text fits, or it does not, or UTF-8 cannot write it.
fits-cases :
    (s : Chars)
    → ((b : Bool) × (fits s ≡ ok b)) ⊎ ((has_surrogate s ≡ true) × (fits s ≡ err unicode_error))
fits-cases s = elim (Bool-cases (has_surrogate s)) [
  | inl bad ↦ inr (bad, rw bad refl)
  | inr scalar ↦ inl (leb (utf8_length s) Config.prompt_memory_serialized_max_bytes, rw scalar refl)
]

bounded_from-IsBounded :
    (count : ℕ) (records : List Json)
    → count + length records < 10 ^ 20
    → IsBounded count records (bounded_from count records)
unfolding bounded_from
bounded_from-IsBounded count [] few =
    let fit = all_elided-fits count (omega arith) in rw fit (0, IsLeast-here count [], fit)
bounded_from-IsBounded count (r ∷ records) few =
    elim (fits-cases (serialize_memory count (r ∷ records))) [
      | inr (bad, raised) ↦
          rw raised (0, _, IsLeast-here count (r ∷ records), omega arith, bad, refl)
      | inl (true, fit) ↦ rw fit (0, IsLeast-here count (r ∷ records), fit)
      | inl (false, full) ↦ rw full (
          IsBounded-next count r records _ full
            (bounded_from-IsBounded (count + 1) records (omega arith)))
    ]

-- With fewer than 10^20 records, serializing the case's history returns or raises. What it returns
-- is within the limit of bytes: it shows the records but for a number of the oldest ones, with a
-- record that says how many, and with fewer of them left out the limit is exceeded. It raises only
-- what `encode` raises, on a text that contains a surrogate: one that still shows some record,
-- when with fewer left out the limit is exceeded.
pub serialize_bounded_memory-IsBounded :
    (records : List Json)
    → length records < 10 ^ 20
    → IsBounded 0 records (serialize_bounded_memory records)
unfolding serialize_bounded_memory
serialize_bounded_memory-IsBounded records few = bounded_from-IsBounded 0 records (omega arith)
