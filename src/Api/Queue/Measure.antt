-- ===== src/Api/Queue/Measure.antt =====
-- The cases that the queue has not seen are fewer after each case that it takes in.
use refundagent.Common.{
  ℕ, suc, ◌+◌, ◌≤◌, true, false, List, [], ◌∷◌, ◌++◌, contains, contains-append, length, All, ◌≡◌,
  refl, arith, inl, inr, Bool-cases, ==-refl,
}
use refundagent.Api.Queue.{unseen}
use refundagent.Domain.Texts.{CaseId}

-- How many of the cases are not seen yet.
abbrev pub remaining : List CaseId → List CaseId → ℕ
remaining seen [] = 0
remaining seen (i ∷ is) =
    let rest = remaining seen is in elim (contains seen i) [ true ↦ rest | false ↦ suc rest ]

pub remaining-le : (seen ids : List CaseId) → remaining seen ids ≤ length ids
remaining-le seen [] = omega arith
remaining-le seen (i ∷ is) = ground (arith, remaining-le seen is)

remaining_mono :
    (seen ids : List CaseId) (x : CaseId) → remaining (seen ++ x ∷ []) ids ≤ remaining seen ids
remaining_mono seen [] x = omega arith
remaining_mono seen (i ∷ is) x =
    ground (arith, remaining_mono seen is x, contains-append seen (x ∷ []) i)

remaining-lt :
    (seen ids : List CaseId) (x : CaseId)
    → contains ids x ≡ true
    → contains seen x ≡ false
    → suc (remaining (seen ++ x ∷ []) ids) ≤ remaining seen ids
remaining-lt seen [] x h new = cc
remaining-lt seen (i ∷ is) x h new = ground (
  arith,
  remaining_mono seen is x,
  contains-append seen (x ∷ []) i,
  remaining-lt seen is x,
  ==-refl x,
)

append_assoc :
    (xs : List CaseId) (x : CaseId) (ys : List CaseId) → (xs ++ x ∷ []) ++ ys ≡ xs ++ x ∷ ys
append_assoc [] x ys = refl
append_assoc (z ∷ xs) x ys = rw (append_assoc xs x ys) refl

append-nil : (xs : List CaseId) → xs ++ [] ≡ xs
append-nil [] = refl
append-nil (x ∷ xs) = rw (append-nil xs) refl

-- What the queue takes in leaves the remaining cases.
pub remaining-unseen :
    (ids seen peers : List CaseId)
    → All (λ p. contains ids p ≡ true) peers
    → length (unseen seen peers) + remaining (seen ++ unseen seen peers) ids ≤ remaining seen ids
unfolding unseen
remaining-unseen ids seen [] known = rw append-nil (omega arith)
remaining-unseen ids seen (p ∷ ps) (k, known) = elim (Bool-cases (contains seen p)) [
  | inl old ↦ rw old (remaining-unseen ids seen ps known)
  | inr new ↦
      rw (new, ← append_assoc seen p (unseen (seen ++ p ∷ []) ps))
        (omega
          (arith, remaining-unseen ids (seen ++ p ∷ []) ps known, remaining-lt seen ids p k new))
]

pub length-unseen : (seen ks : List CaseId) → length (unseen seen ks) ≤ length ks
unfolding unseen
length-unseen seen [] = omega arith
length-unseen seen (k ∷ ks) =
    ground (arith, length-unseen seen ks, length-unseen (seen ++ k ∷ []) ks)
