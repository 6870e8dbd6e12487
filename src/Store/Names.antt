-- ===== src/Store/Names.antt =====
-- The order of identifiers. They are compared as strings, so `case_10` comes before `case_9`: with
-- one prefix, the order is that of the decimal digits, position by position.
use refundagent.Common.{ℕ, suc, ◌==◌, ltb, Bool, true, false, ◌||◌, ◌&&◌, List, [], ◌∷◌}
use refundagent.Common.Chars.{digits_onto}

-- Python's `<=` on strings.
lexicographic : List ℕ → List ℕ → Bool
lexicographic [] bs = true
lexicographic (a ∷ as') [] = false
lexicographic (a ∷ as') (b ∷ bs) = ltb a b || (a == b && lexicographic as' bs)

unfoldable pub name_leb : ℕ → ℕ → Bool
unfolding digits_onto lexicographic
name_leb m n = lexicographic (digits_onto (suc m) m []) (digits_onto (suc n) n [])
