-- ===== src/Common/Chars.antt =====
-- Text as the list of its code points, and Python's string operations on it.
pub mod Absent
pub mod Take
use Prim.Native.Char.{Char, code}
use Prim.Native.String
use Prim.Native.String.{String}
use refundagent.Common.Tests.{ltb, leb, ◌==◌, if◌then◌else◌}
use Prim.Native.Nat.{ℕ, zero, suc, ◌+◌, ◌-◌, ◌*◌, ◌/◌, ◌%◌, ◌≤◌}
use mathlib.Core.Bool.{Bool, true, false, ◌&&◌, ◌||◌}
use mathlib.Core.List.{List, [], ◌∷◌, ◌++◌, map}

abbrev pub Chars : Type 0
Chars = List ℕ

abbrev pub codes : String → Chars
codes String.[] = []
codes (String.◌∷◌ c s) = code c ∷ codes s

-- `a == b` on strings
unfoldable pub same_text : Chars → Chars → Bool
same_text [] [] = true
same_text [] (d ∷ t) = false
same_text (c ∷ s) [] = false
same_text (c ∷ s) (d ∷ t) = c == d && same_text s t

-- `text.startswith(s)`
unfoldable pub starts_with : Chars → Chars → Bool
starts_with [] t = true
starts_with (c ∷ s) [] = false
starts_with (c ∷ s) (d ∷ t) = c == d && starts_with s t

-- `s in text`, for an `s` that is not empty
unfoldable pub occurs : Chars → Chars → Bool
unfolding starts_with
occurs s [] = false
occurs s (d ∷ t) = starts_with s (d ∷ t) || occurs s t

-- `text[:n]`
abbrev pub take : ℕ → Chars → Chars
take zero t = []
take (suc n) [] = []
take (suc n) (c ∷ t) = c ∷ take n t

-- `text.replace(old, new)` for an `old` of n + 1 characters: from left to right, without overlap. The
-- first argument counts the characters of an occurrence that are still to be passed over.
unfoldable pub replace_from : ℕ → Chars → ℕ → Chars → Chars → Chars
unfolding starts_with
replace_from skip old n new [] = []
replace_from (suc skip) old n new (c ∷ t) = replace_from skip old n new t
replace_from zero old n new (c ∷ t) =
    let hit = new ++ replace_from n old n new t in
    let miss = c ∷ replace_from zero old n new t in if starts_with old (c ∷ t) then hit else miss

-- The decimal digits of n in front of `rest`; n + 1 rounds are more than n has digits.
unfoldable pub digits_onto : ℕ → ℕ → List ℕ → List ℕ
digits_onto zero n rest = rest
digits_onto (suc rounds) n rest =
    let more = digits_onto rounds (n / 10) ((n % 10) ∷ rest) in if ltb n 10 then n ∷ rest else more

abbrev pub digit : ℕ → ℕ
digit d = b'0' + d

-- `str(n)`
unfoldable pub decimal : ℕ → Chars
unfolding digits_onto
decimal n = map digit (digits_onto (suc n) n [])

-- The last k digits of n.
unfoldable pub last_digits : ℕ → ℕ → List ℕ → List ℕ
last_digits zero n rest = rest
last_digits (suc k) n rest = last_digits k (n / 10) ((n % 10) ∷ rest)
