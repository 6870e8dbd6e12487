-- ===== src/Common/Utf8.antt =====
-- UTF-8 as Python's strict codec reads and writes it.
pub mod Forms
pub mod Cut
use Prim.Native.Nat.{ℕ, zero, suc, ◌+◌, ◌-◌, ◌*◌, ◌/◌, ◌%◌}
use mathlib.Core.Bool.{Bool, true, false, ◌&&◌, ◌||◌}
use mathlib.Core.List.{List, [], ◌∷◌, ◌++◌}
use mathlib.Core.Option.{Option, none, some}
use refundagent.Common.Bytes.{Bytes}
use refundagent.Common.Chars.{Chars}
use refundagent.Common.Tests.{ltb, leb, if◌then◌else◌}

-- The bytes of a code point, for one that is no surrogate.
abbrev pub encode_char : ℕ → Bytes
encode_char c =
    if ltb c 128
    then c ∷ []
    else if ltb c 2048
    then (192 + c / 64) ∷ (128 + c % 64) ∷ []
    else if ltb c 65536
    then (224 + c / 4096) ∷ (128 + (c / 64) % 64) ∷ (128 + c % 64) ∷ []
    else (240 + c / 262144) ∷ (128 + (c / 4096) % 64) ∷ (128 + (c / 64) % 64) ∷ (128 + c % 64) ∷ []

-- `text.encode("utf-8")`
unfoldable pub encode : Chars → Bytes
encode [] = []
encode (c ∷ s) = encode_char c ++ encode s

-- Of a first byte: how many bytes follow, its bits of the code point, and the least code point that
-- so many bytes may write.
abbrev pub followers : ℕ → ℕ
followers b = if ltb b 128 then 0 else if ltb b 224 then 1 else if ltb b 240 then 2 else 3

abbrev pub first_bits : ℕ → ℕ
first_bits b = if ltb b 224 then b - 192 else if ltb b 240 then b - 224 else b - 240

abbrev pub least : ℕ → ℕ
least b = if ltb b 224 then 128 else if ltb b 240 then 2048 else 65536

abbrev pub put : ℕ → Option Chars → Option Chars
put c none = none
put c (some s) = some (c ∷ s)

-- What a first byte makes of the rest: 194 to 244 start longer forms.
abbrev pub led_by : ℕ → Option Chars → Option Chars
led_by b rest = if ltb b 128 then put b rest else if leb 194 b && ltb b 245 then rest else none

abbrev pub continues : ℕ → Bool
continues b = leb 128 b && ltb b 192

-- A code point that is no surrogate, not above the last one, and not written too long.
abbrev pub is_scalar : ℕ → ℕ → Bool
is_scalar low c = leb low c && (ltb c 55296 || leb 57344 c && ltb c 1114112)

-- Decoding with the number of bytes to come of a code point, its bits so far and its lower bound.
unfoldable pub decode_from : ℕ → ℕ → ℕ → Bytes → Option Chars
decode_from zero acc low [] = some []
decode_from zero acc low (b ∷ bytes) =
    led_by b (decode_from (followers b) (first_bits b) (least b) bytes)
decode_from (suc more) acc low [] = none
decode_from (suc zero) acc low (b ∷ bytes) =
    let c = acc * 64 + (b - 128) in
    let rest = decode_from 0 0 0 bytes in
    if continues b && is_scalar low c then put c rest else none
decode_from (suc (suc more)) acc low (b ∷ bytes) =
    let rest = decode_from (suc more) (acc * 64 + (b - 128)) low bytes in
    if continues b then rest else none

-- `bytes.decode("utf-8")`, or UnicodeDecodeError
unfoldable pub decode : Bytes → Option Chars
unfolding decode_from
decode bytes = decode_from 0 0 0 bytes
