-- ===== src/Common/Bytes.antt =====
-- Byte strings, and Python's `int.to_bytes` and `int.from_bytes` in big-endian order.
pub mod RoundTrip
use Prim.Native.Nat.{ℕ, zero, suc, ◌+◌, ◌*◌, ◌/◌, ◌%◌, ◌^◌}
use refundagent.Common.Tests.{ltb, if◌then◌else◌}
use mathlib.Core.List.{List, [], ◌∷◌}
use refundagent.Domain.Result.{Result, ok, err, overflow_error}

abbrev pub Bytes : Type 0
Bytes = List ℕ

-- `payload[n:]`
abbrev pub drop : ℕ → Bytes → Bytes
drop zero b = b
drop (suc n) [] = []
drop (suc n) (c ∷ b) = drop n b

-- The last k digits of n in base 256, in front of `rest`.
unfoldable pub last_bytes : ℕ → ℕ → Bytes → Bytes
last_bytes zero n rest = rest
last_bytes (suc k) n rest = last_bytes k (n / 256) ((n % 256) ∷ rest)

-- `n.to_bytes(k, "big", signed=False)`
unfoldable pub to_bytes : ℕ → ℕ → Result Bytes
unfolding last_bytes
to_bytes k n = if ltb n (256 ^ k) then ok (last_bytes k n []) else err overflow_error

-- `int.from_bytes(bytes, "big", signed=False)`, with the number read so far
unfoldable pub from_bytes : ℕ → Bytes → ℕ
from_bytes n [] = n
from_bytes n (b ∷ bytes) = from_bytes (n * 256 + b) bytes
