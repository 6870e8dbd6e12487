-- ===== src/Common/Bytes/RoundTrip.antt =====
-- A number and its bytes determine one another.
use Prim.Native.Nat.{ℕ, zero, suc, ◌+◌, ◌*◌, ◌/◌, ◌%◌, ◌^◌, ◌<◌}
use mathlib.Core.Path.{subst, ◌≡◌, refl, ap, ◌∙◌}
use mathlib.Core.List.{[], ◌∷◌}
use native.Mathlib.Omega.{arith}
use refundagent.Common.Bytes.{Bytes, last_bytes, from_bytes}

below_base : (n p : ℕ) → n < p * 256 → n / 256 < p
below_base n p h = omega arith

power_step : (k : ℕ) → 256 ^ suc k ≡ 256 ^ k * 256
power_step k = omega arith

pub from_bytes-last_bytes :
    (k n : ℕ) (rest : Bytes) → n < 256 ^ k → from_bytes 0 (last_bytes k n rest) ≡ from_bytes n rest
unfolding from_bytes last_bytes
from_bytes-last_bytes zero n rest h = ap (λ m. from_bytes m rest) (omega arith)
from_bytes-last_bytes (suc k) n rest h =
    from_bytes-last_bytes k (n / 256) ((n % 256) ∷ rest)
      (below_base n (256 ^ k) (subst (λ p. n < p) (power_step k) h))
    ∙ ap (λ m. from_bytes m rest) (omega arith)

quotient : (n b : ℕ) → b < 256 → (n * 256 + b) / 256 ≡ n
quotient n b h = omega arith

remainder : (n b : ℕ) → b < 256 → (n * 256 + b) % 256 ≡ b
remainder n b h = omega arith

last_bytes-step :
    (k n b : ℕ) (rest : Bytes)
    → b < 256
    → last_bytes (suc k) (n * 256 + b) rest ≡ last_bytes k n (b ∷ rest)
unfolding last_bytes
last_bytes-step k n b rest h = rw (quotient n b h, remainder n b h) refl

pub last_bytes-from_bytes :
    (a b c d : ℕ)
    → a < 256
    → b < 256
    → c < 256
    → d < 256
    → last_bytes 4 (from_bytes 0 (a ∷ b ∷ c ∷ d ∷ [])) [] ≡ (a ∷ b ∷ c ∷ d ∷ [])
unfolding from_bytes last_bytes
last_bytes-from_bytes a b c d ha hb hc hd =
    last_bytes-step 3 (((0 * 256 + a) * 256 + b) * 256 + c) d [] hd
    ∙ last_bytes-step 2 ((0 * 256 + a) * 256 + b) c (d ∷ []) hc
    ∙ last_bytes-step 1 (0 * 256 + a) b (c ∷ d ∷ []) hb
    ∙ last_bytes-step 0 0 a (b ∷ c ∷ d ∷ []) ha

pub from_bytes-bound :
    (a b c d : ℕ)
    → a < 256
    → b < 256
    → c < 256
    → d < 256
    → from_bytes 0 (a ∷ b ∷ c ∷ d ∷ []) < 256 ^ 4
unfolding from_bytes
from_bytes-bound a b c d ha hb hc hd = omega arith
