-- ===== src/Agent/Prompt/Build/Elision.antt =====
-- The history is bounded by leaving out its oldest records, and no more of them than must be.
use refundagent.Common.{
  ℕ, zero, suc, ◌+◌, ◌≤◌, ◌<◌, List, [], ◌∷◌, length, ◌≡◌, refl, true, false, arith,
}
use refundagent.Common.Chars.{Chars}
use refundagent.Common.Json.{Json, has_surrogate}
use refundagent.Agent.Prompt.Build.{serialize_memory, fits}
use refundagent.Domain.Result.{Result, ok, err, unicode_error}

abbrev drop : ℕ → List Json → List Json
drop zero records = records
drop (suc n) [] = []
drop (suc n) (r ∷ records) = drop n records

-- `s` shows the records but for the n oldest, and with fewer left out nothing fits.
pub record IsLeast (count : ℕ) (records : List Json) (s : Chars) (n : ℕ) : Type 0 where
  pub left_out : n ≤ length records
  pub shown : s ≡ serialize_memory (count + n) (drop n records)
  pub least : (m : ℕ) → m < n → fits (serialize_memory (count + m) (drop m records)) ≡ ok false

zero-add : (n : ℕ) → n + 0 ≡ n
zero-add n = omega arith

suc-add : (n m : ℕ) → (n + 1) + m ≡ n + suc m
suc-add n m = omega arith

pub IsLeast-here :
    (count : ℕ) (records : List Json) → IsLeast count records (serialize_memory count records) 0
IsLeast-here count records = record {
  left_out = omega arith;
  shown = rw zero-add refl;
  least = λ m lt. absurd (omega arith);
}

least-next :
    (count n : ℕ) (r : Json) (records : List Json) (s : Chars)
    → fits (serialize_memory count (r ∷ records)) ≡ ok false
    → IsLeast (count + 1) records s n
    → (m : ℕ) → m < suc n
    → fits (serialize_memory (count + m) (drop m (r ∷ records))) ≡ ok false
least-next count n r records s full l zero lt = rw zero-add full
least-next count n r records s full l (suc m) lt = rw (← suc-add count m) (l.least m (omega arith))

IsLeast-next :
    (count n : ℕ) (r : Json) (records : List Json) (s : Chars)
    → fits (serialize_memory count (r ∷ records)) ≡ ok false
    → IsLeast (count + 1) records s n
    → IsLeast count (r ∷ records) s (suc n)
IsLeast-next count n r records s full l = record {
  left_out = omega (arith, l.left_out);
  shown = rw (← suc-add count n) l.shown;
  least = least-next count n r records s full l;
}

-- What comes of a history: a text that fits, or the exception of a text that UTF-8 cannot write, of
-- which some record is left.
abbrev pub IsBounded : ℕ → List Json → Result Chars → Type 0
IsBounded count records (ok s) = (n : ℕ) × IsLeast count records s n × (fits s ≡ ok true)
IsBounded count records (err e) =
    (n : ℕ) × (s : Chars) × IsLeast count records s n
    × (n < length records)
    × (has_surrogate s ≡ true)
    × (e ≡ unicode_error)

pub IsBounded-next :
    (count : ℕ) (r : Json) (records : List Json) (out : Result Chars)
    → fits (serialize_memory count (r ∷ records)) ≡ ok false
    → IsBounded (count + 1) records out
    → IsBounded count (r ∷ records) out
IsBounded-next count r records (ok s) full (n, l, fit) =
    (suc n, IsLeast-next count n r records s full l, fit)
IsBounded-next count r records (err e) full (n, s, l, some_left, bad, same) =
    (suc n, s, IsLeast-next count n r records s full l, omega arith, bad, same)
