-- ===== src/Common/Utf8/Forms.antt =====
-- The decoder on the bytes of each form of a code point.
use Prim.Native.Nat.{ℕ, zero, suc, ◌+◌, ◌-◌, ◌*◌, ◌/◌, ◌%◌, ◌≤◌, ◌<◌}
use mathlib.Core.Path.{◌≡◌, refl, ap, ◌∙◌}
use mathlib.Core.Bool.{true}
use mathlib.Core.List.{[], ◌∷◌}
use mathlib.Core.Option.{Option, none}
use native.Mathlib.Omega.{arith}
use refundagent.Common.Bytes.{Bytes}
use refundagent.Common.Chars.{Chars}
use refundagent.Common.Utf8.{
  followers, first_bits, least, put, led_by, continues, is_scalar, decode_from,
}

at_start : (acc low : ℕ) (bytes : Bytes) → decode_from 0 acc low bytes ≡ decode_from 0 0 0 bytes
unfolding decode_from
at_start acc low [] = refl
at_start acc low (b ∷ bytes) = refl

led_by-none : (b : ℕ) → led_by b none ≡ none
led_by-none b = ground arith

led_by-longer : (b : ℕ) (r : Option Chars) → 194 ≤ b → b < 245 → led_by b r ≡ r
led_by-longer b r hl hu = ground arith

led_by-ascii : (b : ℕ) (r : Option Chars) → b < 128 → led_by b r ≡ put b r
led_by-ascii b r h = ground arith

continues_within : (b : ℕ) → 128 ≤ b → b < 192 → continues b ≡ true
continues_within b hl hu = ground arith

no_followers : (b : ℕ) → b < 128 → followers b ≡ 0
no_followers b h = ground arith

-- A code point that UTF-8 writes.
abbrev pub IsScalar : ℕ → Type 0
IsScalar c = is_scalar 0 c ≡ true

pub scalar_above : (low c : ℕ) → IsScalar c → low ≤ c → is_scalar low c ≡ true
scalar_above low c h le = ground arith

pub below_end : (c : ℕ) → IsScalar c → c < 1114112
below_end c h = ground arith

pub ascii : (c : ℕ) (t : Bytes) → c < 128 → decode_from 0 0 0 (c ∷ t) ≡ put c (decode_from 0 0 0 t)
unfolding decode_from
ascii c t h =
    rw (no_followers c h) (led_by-ascii c _ h ∙ ap (put c) (at_start (first_bits c) (least c) t))

lead :
    (b n a l : ℕ) (t : Bytes)
    → 194 ≤ b
    → b < 245
    → followers b ≡ n
    → first_bits b ≡ a
    → least b ≡ l
    → decode_from 0 0 0 (b ∷ t) ≡ decode_from n a l t
unfolding decode_from
lead b n a l t hl hu hn ha hm = rw (hn, ha, hm) (led_by-longer b _ hl hu)

middle :
    (more a low b : ℕ) (t : Bytes)
    → 128 ≤ b
    → b < 192
    → decode_from (suc (suc more)) a low (b ∷ t) ≡ decode_from (suc more) (a * 64 + (b - 128)) low t
unfolding decode_from
middle more a low b t hl hu = rw (continues_within b hl hu) refl

pub last :
    (a low b c : ℕ) (t : Bytes)
    → 128 ≤ b
    → b < 192
    → a * 64 + (b - 128) ≡ c
    → is_scalar low c ≡ true
    → decode_from 1 a low (b ∷ t) ≡ put c (decode_from 0 0 0 t)
unfolding decode_from
last a low b c t hl hu hc hs = rw (continues_within b hl hu, hc, hs) refl

-- The first bytes of the longer forms.
pub lead_two :
    (c : ℕ) (t : Bytes)
    → 128 ≤ c
    → c < 2048
    → decode_from 0 0 0 ((192 + c / 64) ∷ t) ≡ decode_from 1 (c / 64) 128 t
lead_two c t hl hu =
    lead (192 + c / 64) 1 (c / 64) 128 t (omega arith) (omega arith) (ground arith) (ground arith)
      (ground arith)

pub lead_three :
    (c : ℕ) (t : Bytes)
    → 2048 ≤ c
    → c < 65536
    → decode_from 0 0 0 ((224 + c / 4096) ∷ t) ≡ decode_from 2 (c / 4096) 2048 t
lead_three c t hl hu =
    lead (224 + c / 4096) 2 (c / 4096) 2048 t (omega arith) (omega arith) (ground arith)
      (ground arith) (ground arith)

pub lead_four :
    (c : ℕ) (t : Bytes)
    → 65536 ≤ c
    → c < 1114112
    → decode_from 0 0 0 ((240 + c / 262144) ∷ t) ≡ decode_from 3 (c / 262144) 65536 t
lead_four c t hl hu =
    lead (240 + c / 262144) 3 (c / 262144) 65536 t (omega arith) (omega arith) (ground arith)
      (ground arith) (ground arith)

pub middle_byte :
    (more a low c : ℕ) (t : Bytes)
    → decode_from (suc (suc more)) a low ((128 + c % 64) ∷ t)
      ≡ decode_from (suc more) (a * 64 + ((128 + c % 64) - 128)) low t
middle_byte more a low c t = middle more a low (128 + c % 64) t (omega arith) (omega arith)

pub unfinished : (more acc low : ℕ) → decode_from (suc more) acc low [] ≡ none
unfolding decode_from
unfinished zero acc low = refl
unfinished (suc more) acc low = refl
