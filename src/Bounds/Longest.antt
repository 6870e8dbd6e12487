-- ===== src/Bounds/Longest.antt =====
-- The truncation of a text's bytes is the longest part of the text, from its start, that fits.
use refundagent.Common.{
  ℕ, zero, suc, ◌-◌, ◌≤◌, ◌<◌, leb, leb→le, true, false, Bool-cases, Option, none, some, [], ◌∷◌,
  ◌++◌, if◌then◌else◌, length, length-append, All, ◌≡◌, refl, ap, sym, ◌∙◌, arith, inl, inr, String,
}
use refundagent.Bounds.{or_shorter, shrink, truncate_utf8_bytes, bound_invalid_output_audit}
use refundagent.Common.Bytes.{Bytes}
use refundagent.Common.Chars.{Chars, take}
use refundagent.Common.Utf8.{encode, encode_char, decode, decode_from, put}
use refundagent.Common.Utf8.Forms.{IsScalar}
use refundagent.Common.Utf8.Cut.{Writes, Writes-encode_char}
use refundagent.Config

-- As many bytes as these, and j more.
abbrev past : Bytes → ℕ → ℕ
past [] j = j
past (b ∷ bytes) j = suc (past bytes j)

past-suc : (bytes : Bytes) (j : ℕ) → past bytes (suc j) ≡ suc (past bytes j)
past-suc [] j = refl
past-suc (b ∷ bytes) j = ap (λ n. suc n) (past-suc bytes j)

take-past : (bytes t : Bytes) (j : ℕ) → take (past bytes j) (bytes ++ t) ≡ bytes ++ take j t
take-past [] t j = refl
take-past (b ∷ bytes) t j = ap (λ r. b ∷ r) (take-past bytes t j)

past-length : (bytes : Bytes) (n : ℕ) → length bytes ≤ n → past bytes (n - length bytes) ≡ n
past-length [] n h = omega arith
past-length (b ∷ bytes) zero h = absurd (omega arith)
past-length (b ∷ bytes) (suc n) h =
    ap (λ k. suc k) (ap (past bytes) (omega arith) ∙ past-length bytes n (omega arith))

put-or :
    (c : ℕ) (found : Option Chars) (s : Chars)
    → or_shorter (put c found) (c ∷ s) ≡ c ∷ or_shorter found s
put-or c none s = refl
put-or c (some t) s = refl

decode-empty : decode [] ≡ some []
unfolding decode decode_from
decode-empty = refl

module _ (c b : ℕ) (bytes t : Bytes) (writes : Writes c (b ∷ bytes)) where
  shrink_within : (k : ℕ) → k < length (b ∷ bytes) → shrink k ((b ∷ bytes) ++ t) ≡ []
  unfolding shrink decode
  shrink_within zero h = refl
  shrink_within (suc k) h =
      rw (writes.cut (suc k) t (omega arith) h) (shrink_within k (omega arith))

  whole_then :
      (j : ℕ) → decode (take (past (b ∷ bytes) j) ((b ∷ bytes) ++ t)) ≡ put c (decode (take j t))
  unfolding decode
  whole_then j = ap (decode_from 0 0 0) (take-past (b ∷ bytes) t j) ∙ writes.whole (take j t)

  shrink-past : (j : ℕ) → shrink (past (b ∷ bytes) j) ((b ∷ bytes) ++ t) ≡ c ∷ shrink j t
  unfolding shrink
  shrink-past zero =
      ap (λ found. or_shorter found (shrink (past bytes zero) ((b ∷ bytes) ++ t))) (whole_then zero)
      ∙ ap (λ found. or_shorter (put c found) (shrink (past bytes zero) ((b ∷ bytes) ++ t)))
          decode-empty
  shrink-past (suc j) =
      ap (λ found. or_shorter found (shrink (past bytes (suc j)) ((b ∷ bytes) ++ t)))
        (whole_then (suc j))
      ∙ ap (or_shorter (put c (decode (take (suc j) t))))
          (ap (λ n. shrink n ((b ∷ bytes) ++ t)) (past-suc bytes j) ∙ shrink-past j)
      ∙ put-or c (decode (take (suc j) t)) (shrink j t)

-- What the truncation keeps of a text: whole characters, as long as they fit.
abbrev pub kept : ℕ → Chars → Chars
kept n [] = []
kept n (c ∷ s) =
    let later = kept (n - length (encode_char c)) s in
    if leb (length (encode_char c)) n then c ∷ later else []

shrink_nothing : (k : ℕ) → shrink k [] ≡ []
unfolding shrink decode decode_from
shrink_nothing zero = refl
shrink_nothing (suc k) = refl

shorter_than : (m n : ℕ) → leb m n ≡ false → n < m
shorter_than m n h = ground arith

shrink_char :
    (c : ℕ) (bytes t : Bytes) (n : ℕ)
    → Writes c bytes
    → 0 < length bytes
    → shrink n (bytes ++ t) ≡ (if leb (length bytes) n then c ∷ shrink (n - length bytes) t else [])
shrink_char c [] t n writes h = absurd (omega arith)
shrink_char c (b ∷ bytes) t n writes h = elim (Bool-cases (leb (length (b ∷ bytes)) n)) [
  | inl fits ↦ rw fits (
      ap (λ m. shrink m ((b ∷ bytes) ++ t)) (sym (past-length (b ∷ bytes) n (leb→le _ _ fits)))
      ∙ shrink-past c b bytes t writes (n - length (b ∷ bytes)))
  | inr long ↦ rw long (shrink_within c b bytes t writes n (shorter_than _ _ long))
]

reaches : (m n : ℕ) → m ≤ n → leb m n ≡ true
reaches m n h = ground arith

some_byte : (c : ℕ) → 0 < length (encode_char c)
some_byte c = ground arith

shrink-encode : (n : ℕ) (s : Chars) → All IsScalar s → shrink n (encode s) ≡ kept n s
unfolding encode
shrink-encode n [] h = shrink_nothing n
shrink-encode n (c ∷ s) (hc, hs) =
    shrink_char c (encode_char c) (encode s) n (Writes-encode_char c hc) (some_byte c)
    ∙ ap (λ later. if leb (length (encode_char c)) n then c ∷ later else [])
        (shrink-encode (n - length (encode_char c)) s hs)

decode-encode : (s : Chars) → All IsScalar s → decode (encode s) ≡ some s
unfolding decode encode
decode-encode [] h = decode-empty
decode-encode (c ∷ s) (hc, hs) =
    (Writes-encode_char c hc).whole (encode s) ∙ ap (put c) (decode-encode s hs)

kept_all : (n : ℕ) (s : Chars) → length (encode s) ≤ n → kept n s ≡ s
unfolding encode
kept_all n [] h = refl
kept_all n (c ∷ s) h =
    let sizes = length-append (encode_char c) (encode s) in
    let fits : leb (length (encode_char c)) n ≡ true =
      reaches (length (encode_char c)) n (omega (arith, sizes)) in
    rw (fits, kept_all (n - length (encode_char c)) s (omega (arith, sizes))) refl

-- A part of the text from its start that takes at most n bytes, and no longer part does.
pub record IsLongest (n : ℕ) (s p : Chars) : Type 0 where
  pub start : (rest : Chars) × (s ≡ p ++ rest)
  pub small : length (encode p) ≤ n
  pub longest : (q r : Chars) → s ≡ q ++ r → length (encode q) ≤ n → length q ≤ length p

first_same : {c d : ℕ} {s t : Chars} → ◌≡◌ {A = Chars} (c ∷ s) (d ∷ t) → c ≡ d
first_same h = cc

later_same : {c d : ℕ} {s t : Chars} → ◌≡◌ {A = Chars} (c ∷ s) (d ∷ t) → s ≡ t
later_same h = cc

IsLongest-none : (n c : ℕ) (s : Chars) → n < length (encode_char c) → IsLongest n (c ∷ s) []
unfolding encode
IsLongest-none n c s long = record {
  start = (c ∷ s, refl);
  small = omega arith;
  longest = nothing_longer;
}
  where
    nothing_longer :
        (q r : Chars) → ◌≡◌ {A = Chars} (c ∷ s) (q ++ r) → length (encode q) ≤ n → length q ≤ 0
    nothing_longer [] r h le = omega arith
    nothing_longer (d ∷ q) r h le =
        let sizes = length-append (encode_char d) (encode q) in
        let first = ap (λ x. length (encode_char x)) (first_same h) in
        absurd (omega (arith, sizes, first))

IsLongest-more :
    (n c : ℕ) (s p : Chars)
    → length (encode_char c) ≤ n
    → IsLongest (n - length (encode_char c)) s p
    → IsLongest n (c ∷ s) (c ∷ p)
unfolding encode
IsLongest-more n c s p fits l = record {
  start = (l.start.0, ap (λ t. c ∷ t) l.start.1);
  small = omega (arith, length-append (encode_char c) (encode p), l.small);
  longest = none_longer;
}
  where
    none_longer :
        (q r : Chars)
        → ◌≡◌ {A = Chars} (c ∷ s) (q ++ r)
        → length (encode q) ≤ n
        → length q ≤ suc (length p)
    none_longer [] r h le = omega arith
    none_longer (d ∷ q) r h le =
        let sizes = length-append (encode_char d) (encode q) in
        let first = ap (λ x. length (encode_char x)) (first_same h) in
        let later = l.longest q r (later_same h) (omega (arith, sizes, first)) in omega arith

kept-IsLongest : (n : ℕ) (s : Chars) → IsLongest n s (kept n s)
unfolding encode
kept-IsLongest n [] = record { start = ([], refl); small = omega arith; longest = nothing_longer }
  where
    nothing_longer :
        (q r : Chars) → ◌≡◌ {A = Chars} [] (q ++ r) → length (encode q) ≤ n → length q ≤ 0
    nothing_longer [] r h le = omega arith
    nothing_longer (d ∷ q) r h le = cc
kept-IsLongest n (c ∷ s) = elim (Bool-cases (leb (length (encode_char c)) n)) [
  | inl fits ↦ rw fits (
      IsLongest-more n c s (kept (n - length (encode_char c)) s) (leb→le _ _ fits)
        (kept-IsLongest (n - length (encode_char c)) s))
  | inr long ↦ rw long (IsLongest-none n c s (shorter_than _ _ long))
]

truncated :
    (s : Chars) (n : ℕ) → All IsScalar s → truncate_utf8_bytes (encode s) n ≡ some (kept n s)
unfolding truncate_utf8_bytes
truncated s n h = elim (Bool-cases (leb (length (encode s)) n)) [
  | inl fits ↦ rw (fits, kept_all n s (leb→le _ _ fits)) (decode-encode s h)
  | inr long ↦ rw long (ap some (shrink-encode n s h))
]

-- For a text whose code points UTF-8 can write, the record of an invalid output has the number and
-- the digest of the text's bytes and a preview that starts the text, takes at most the limit of
-- bytes, and is as long as a start of the text within the limit can be; so no character is cut,
-- and nothing is raised.
pub bound_invalid_output_audit-IsLongest :
    (sha256 : Bytes → String) (raw : Chars)
    → All IsScalar raw
    → (preview : Chars) × (bound_invalid_output_audit sha256 raw
        ≡ some (preview, length (encode raw), sha256 (encode raw)))
      × IsLongest Config.invalid_output_preview_max_bytes raw preview
unfolding bound_invalid_output_audit
bound_invalid_output_audit-IsLongest sha256 raw h = (
  kept Config.invalid_output_preview_max_bytes raw,
  rw (truncated raw Config.invalid_output_preview_max_bytes h) refl,
  kept-IsLongest Config.invalid_output_preview_max_bytes raw,
)
