-- ===== src/Common/Utf8/Cut.antt =====
-- A text's bytes, cut anywhere, decode to the characters before the cut, if it is between two of them,
-- and else not at all.
use Prim.Native.Nat.{ℕ, zero, suc, ◌+◌, ◌-◌, ◌*◌, ◌/◌, ◌%◌, ◌≤◌, ◌<◌}
use mathlib.Core.Path.{◌≡◌, ◌∙◌}
use mathlib.Core.Bool.{false}
use mathlib.Core.List.{[], ◌∷◌, ◌++◌}
use mathlib.Core.Logic.{inl, inr}
use mathlib.Core.Option.{none}
use native.Mathlib.Omega.{arith}
use refundagent.Common.Bytes.{Bytes}
use refundagent.Common.Chars.{take}
use refundagent.Common.Lists.{length}
use refundagent.Common.Tests.{ltb, Bool-cases, ltb→lt}
use refundagent.Common.Utf8.{encode_char, put, decode_from}
use refundagent.Common.Utf8.Forms.{
  IsScalar, ascii, last, lead_two, lead_three, lead_four, middle_byte, unfinished, scalar_above,
  below_end,
}

-- The bytes of a character in front of others: cut after them, they are the character and what follows
-- decodes to; cut within them, they decode to nothing.
pub record Writes (c : ℕ) (bytes : Bytes) : Type 0 where
  pub whole : (t : Bytes) → decode_from 0 0 0 (bytes ++ t) ≡ put c (decode_from 0 0 0 t)
  pub cut :
      (k : ℕ) (t : Bytes)
      → 0 < k
      → k < length bytes
      → decode_from 0 0 0 (take k (bytes ++ t)) ≡ none

Writes-one : (c : ℕ) → c < 128 → Writes c (c ∷ [])
Writes-one c h = record { whole = λ t. ascii c t h; cut = λ k t hk hl. absurd (omega arith) }

Writes-two :
    (c : ℕ) → IsScalar c → 128 ≤ c → c < 2048 → Writes c ((192 + c / 64) ∷ (128 + c % 64) ∷ [])
Writes-two c hs hl hu = record {
  whole = λ t.
      lead_two c _ hl hu
      ∙ last (c / 64) 128 (128 + c % 64) c t (omega arith) (omega arith) (omega arith)
          (scalar_above 128 c hs hl);
  cut = cut_two;
}
  where
    cut_two :
        (k : ℕ) (t : Bytes)
        → 0 < k
        → k < 2
        → decode_from 0 0 0 (take k ((192 + c / 64) ∷ (128 + c % 64) ∷ t)) ≡ none
    cut_two zero t hk hl2 = absurd (omega arith)
    cut_two (suc zero) t hk hl2 = lead_two c [] hl hu ∙ unfinished 0 (c / 64) 128
    cut_two (suc (suc k)) t hk hl2 = absurd (omega arith)

Writes-three :
    (c : ℕ)
    → IsScalar c
    → 2048 ≤ c
    → c < 65536
    → Writes c ((224 + c / 4096) ∷ (128 + (c / 64) % 64) ∷ (128 + c % 64) ∷ [])
Writes-three c hs hl hu = record {
  whole = λ t.
      lead_three c _ hl hu
      ∙ middle_byte 0 (c / 4096) 2048 (c / 64) _
      ∙ last _ 2048 (128 + c % 64) c t (omega arith) (omega arith) (omega arith)
          (scalar_above 2048 c hs hl);
  cut = cut_three;
}
  where
    cut_three :
        (k : ℕ) (t : Bytes)
        → 0 < k
        → k < 3
        → decode_from 0 0 0 (take k ((224 + c / 4096) ∷ (128 + (c / 64) % 64) ∷ (128 + c % 64) ∷ t))
          ≡ none
    cut_three zero t hk hl2 = absurd (omega arith)
    cut_three (suc zero) t hk hl2 = lead_three c [] hl hu ∙ unfinished 1 (c / 4096) 2048
    cut_three (suc (suc zero)) t hk hl2 =
        lead_three c ((128 + (c / 64) % 64) ∷ []) hl hu
        ∙ middle_byte 0 (c / 4096) 2048 (c / 64) []
        ∙ unfinished 0 (c / 4096 * 64 + ((128 + (c / 64) % 64) - 128)) 2048
    cut_three (suc (suc (suc k))) t hk hl2 = absurd (omega arith)

Writes-four :
    (c : ℕ)
    → IsScalar c
    → 65536 ≤ c
    → Writes c
        ((240 + c / 262144) ∷ (128 + (c / 4096) % 64) ∷ (128 + (c / 64) % 64) ∷ (128 + c % 64) ∷ [])
Writes-four c hs hl = record {
  whole = λ t.
      lead_four c _ hl (below_end c hs)
      ∙ middle_byte 1 (c / 262144) 65536 (c / 4096) _
      ∙ middle_byte 0 _ 65536 (c / 64) _
      ∙ (let hu = below_end c hs in
          last _ 65536 (128 + c % 64) c t (omega arith) (omega arith) (omega arith)
            (scalar_above 65536 c hs hl));
  cut = cut_four;
}
  where
    cut_four :
        (k : ℕ) (t : Bytes)
        → 0 < k
        → k < 4
        → decode_from 0 0 0 (
            take k (
              (240 + c / 262144)
              ∷ (128 + (c / 4096) % 64)
              ∷ (128 + (c / 64) % 64)
              ∷ (128 + c % 64)
              ∷ t))
          ≡ none
    cut_four zero t hk hl2 = absurd (omega arith)
    cut_four (suc zero) t hk hl2 =
        lead_four c [] hl (below_end c hs) ∙ unfinished 2 (c / 262144) 65536
    cut_four (suc (suc zero)) t hk hl2 =
        lead_four c ((128 + (c / 4096) % 64) ∷ []) hl (below_end c hs)
        ∙ middle_byte 1 (c / 262144) 65536 (c / 4096) []
        ∙ unfinished 1 (c / 262144 * 64 + ((128 + (c / 4096) % 64) - 128)) 65536
    cut_four (suc (suc (suc zero))) t hk hl2 =
        lead_four c ((128 + (c / 4096) % 64) ∷ (128 + (c / 64) % 64) ∷ []) hl (below_end c hs)
        ∙ middle_byte 1 (c / 262144) 65536 (c / 4096) ((128 + (c / 64) % 64) ∷ [])
        ∙ middle_byte 0 (c / 262144 * 64 + ((128 + (c / 4096) % 64) - 128)) 65536 (c / 64) []
        ∙ unfinished 0
            ((c / 262144 * 64 + ((128 + (c / 4096) % 64) - 128)) * 64
              + ((128 + (c / 64) % 64) - 128))
            65536
    cut_four (suc (suc (suc (suc k)))) t hk hl2 = absurd (omega arith)

at_least : (c n : ℕ) → ltb c n ≡ false → n ≤ c
at_least c n h = ground arith

pub Writes-encode_char : (c : ℕ) → IsScalar c → Writes c (encode_char c)
Writes-encode_char c hs = elim (Bool-cases (ltb c 128)) [
  | inl h ↦ rw h (Writes-one c (ltb→lt c 128 h))
  | inr h1 ↦ rw h1 (elim (Bool-cases (ltb c 2048)) [
    | inl h ↦ rw h (Writes-two c hs (at_least c 128 h1) (ltb→lt c 2048 h))
    | inr h2 ↦ rw h2 (elim (Bool-cases (ltb c 65536)) [
      | inl h ↦ rw h (Writes-three c hs (at_least c 2048 h2) (ltb→lt c 65536 h))
      | inr h3 ↦ rw h3 (Writes-four c hs (at_least c 65536 h3))
    ])
  ])
]
