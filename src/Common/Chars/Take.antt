-- ===== src/Common/Chars/Take.antt =====
-- Laws of `take`.
use Prim.Native.Nat.{ℕ, zero, suc, ◌≤◌}
use mathlib.Core.List.{[], ◌∷◌}
use native.Mathlib.Omega.{arith}
use refundagent.Common.Lists.{length}
use refundagent.Common.Chars.{Chars, take}

pub length-take : (n : ℕ) (t : Chars) → length (take n t) ≤ n
length-take zero t = omega arith
length-take (suc n) [] = omega arith
length-take (suc n) (c ∷ t) = omega (arith, length-take n t)
