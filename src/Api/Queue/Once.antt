-- ===== src/Api/Queue/Once.antt =====
-- The queue of case loops gives no case a second turn.
use refundagent.Common.{
  ℕ, zero, suc, true, false, Option, none, some, List, [], ◌∷◌, ◌++◌, contains, IsDistinct,
  contains-append, All, ◌≡◌, refl, arith, Bool-cases, Option-cases, inl, inr, ==-refl, eq_of_==,
  All-append, All-mono,
}
use refundagent.Agent.Boundary.{Environment}
use refundagent.Api.Queue.{unseen, after_turn, queue_turn, drain_from, drain_agent_loop_queue}
use refundagent.Domain.Result.{ok, Result-cases}
use refundagent.Domain.Texts.{CaseId}
use refundagent.Store.Session.{Tx, World, ◌>>=◌, pure}

abbrev AllIn : List CaseId → List CaseId → Type 0
AllIn seen ks = All (λ k. contains seen k ≡ true) ks

-- What is seen is not unseen.
contains-unseen :
    (seen ks : List CaseId) (k : CaseId)
    → contains seen k ≡ true
    → contains (unseen seen ks) k ≡ false
unfolding unseen
contains-unseen seen [] k h = refl
contains-unseen seen (x ∷ xs) k h = elim (Bool-cases (contains seen x)) [
  | inl old ↦ rw old (contains-unseen seen xs k h)
  | inr new ↦ rw new (
      ground (
        arith,
        new,
        h,
        eq_of_== x k,
        contains-append seen (x ∷ []) k,
        contains-unseen (seen ++ x ∷ []) xs k,
      ))
]

unseen-IsDistinct : (seen ks : List CaseId) → IsDistinct (unseen seen ks)
unfolding unseen
unseen-IsDistinct seen [] = tt
unseen-IsDistinct seen (x ∷ xs) = elim (Bool-cases (contains seen x)) [
  | inl old ↦ rw old (unseen-IsDistinct seen xs)
  | inr new ↦ rw new (
    contains-unseen (seen ++ x ∷ []) xs x
        (ground (arith, contains-append seen (x ∷ []) x, ==-refl x)),
    unseen-IsDistinct (seen ++ x ∷ []) xs,
  )
]

AllIn-self : (ks : List CaseId) → AllIn ks ks
AllIn-self [] = tt
AllIn-self (k ∷ ks) = (
  ground (arith, ==-refl k),
  All-mono (λ x. contains ks x ≡ true) (λ x. contains (k ∷ ks) x ≡ true) (λ x h. ground arith) ks
      (AllIn-self ks),
)

module _ (seen fresh : List CaseId)
    (disjoint : (k : CaseId) → contains seen k ≡ true → contains fresh k ≡ false) where
  IsDistinct-append :
      (queue : List CaseId)
      → AllIn seen queue
      → IsDistinct queue
      → IsDistinct fresh
      → IsDistinct (queue ++ fresh)
  IsDistinct-append [] known h d = d
  IsDistinct-append (k ∷ ks) (old, known) (once, h) d = (
    ground (arith, once, contains-append ks fresh k, disjoint k old),
    IsDistinct-append ks known h d,
  )

  AllIn-append : (queue : List CaseId) → AllIn seen queue → AllIn (seen ++ fresh) (queue ++ fresh)
  AllIn-append queue known =
      All-append (λ k. contains (seen ++ fresh) k ≡ true) queue fresh
        (All-mono (λ k. contains seen k ≡ true) (λ k. contains (seen ++ fresh) k ≡ true)
          (λ k h. ground (arith, h, contains-append seen fresh k)) queue known)
        (All-mono (λ k. contains fresh k ≡ true) (λ k. contains (seen ++ fresh) k ≡ true)
          (λ k h. ground (arith, h, contains-append seen fresh k)) fresh (AllIn-self fresh))

-- Inversion of a step that returned.
>>=-eq-ok :
    {A B : Type 0} (m : Tx A) (f : A → Tx B) (w : World) {b : B}
    → ((m >>= f) w).0 ≡ ok b
    → (a : A) × ((m w).0 ≡ ok a) × ((f a (m w).1).0 ≡ ok b)
unfolding ◌>>=◌
>>=-eq-ok m f w h = elim (Result-cases (m w).0) [
  | inl (a, went) ↦ (a, went, rw went at h)
  | inr (e, failed) ↦ (let bad = rw failed at h in cc)
]

module _ (env : Environment) (loop_fuel : ℕ) where
  -- No turn is repeated, and none is given to a case that is seen and not in the queue.
  abbrev Once : List CaseId → List CaseId → List CaseId → Type 0
  Once seen queue turns =
      IsDistinct turns
      × ((k : CaseId)
          → contains seen k ≡ true
          → contains queue k ≡ false
          → contains turns k ≡ false)

  Once-turn :
      (seen queue peers turns : List CaseId) (k : CaseId)
      → contains seen k ≡ true
      → contains queue k ≡ false
      → Once (seen ++ unseen seen peers) (queue ++ unseen seen peers) turns
      → Once seen (k ∷ queue) (k ∷ turns)
  Once-turn seen queue peers turns k old once (d, none_left) = (
    (still_out k old once, d),
    λ j known out. ground (arith, out, eq_of_== k j, still_out j known),
  )
    where
      still_out :
          (j : CaseId)
          → contains seen j ≡ true
          → contains queue j ≡ false
          → contains turns j ≡ false
      still_out j known out =
          none_left j (ground (arith, known, contains-append seen (unseen seen peers) j)) (
            ground (
              arith,
              out,
              contains-append queue (unseen seen peers) j,
              contains-unseen seen peers j known,
            ))

  module _ (again : List CaseId → List CaseId → Tx (Option (List CaseId)))
      (later : (seen queue turns : List CaseId) (w : World)
        → AllIn seen queue
        → IsDistinct queue
        → (again seen queue w).0 ≡ ok (some turns)
        → Once seen queue turns) where
    turn-Once :
        (seen queue turns : List CaseId) (k : CaseId)
        → contains seen k ≡ true
        → contains queue k ≡ false
        → AllIn seen queue
        → IsDistinct queue
        → (peers : Option (List CaseId)) (w : World)
        → (after_turn again k seen queue peers w).0 ≡ ok (some turns)
        → Once seen (k ∷ queue) turns
    unfolding after_turn pure
    turn-Once seen queue turns k old once known d none w h = cc
    turn-Once seen queue turns k old once known d (some peers) w h =
        let fresh = unseen seen peers in
        let disjoint = contains-unseen seen peers in
        let (rest, drained, joined) = >>=-eq-ok (again (seen ++ fresh) (queue ++ fresh)) _ w h in
        elim (Option-cases rest) [
          | inl stuck ↦ (let bad = rw stuck at joined in cc)
          | inr (left, is_left) ↦
              let same : k ∷ left ≡ turns = (let j = rw is_left at joined in cc) in
              rw (← same) (
                Once-turn seen queue peers left k old once (
                  later (seen ++ fresh) (queue ++ fresh) left w
                    (AllIn-append seen fresh disjoint queue known)
                    (IsDistinct-append seen fresh disjoint queue known d
                      (unseen-IsDistinct seen peers))
                    (rw is_left at drained)))
        ]

  drain-Once :
      (fuel : ℕ) (seen queue turns : List CaseId) (w : World)
      → AllIn seen queue
      → IsDistinct queue
      → (drain_from env loop_fuel fuel seen queue w).0 ≡ ok (some turns)
      → Once seen queue turns
  unfolding drain_from pure
  drain-Once fuel seen [] turns w known d h =
      let none_left : [] ≡ turns = cc in rw (← none_left) (tt, λ j known out. refl)
  drain-Once zero seen (k ∷ queue) turns w known d h = cc
  drain-Once (suc fuel) seen (k ∷ queue) turns w (old, known) (once, d) h =
      let (peers, _, rest) = >>=-eq-ok (queue_turn env loop_fuel k) _ w h in
      turn-Once (drain_from env loop_fuel fuel) (drain-Once fuel) seen queue turns k old once known
        d peers (queue_turn env loop_fuel k w).1 rest

  -- When the queue of case loops ends without a raise and within its fuel, no case has had two
  -- turns, whichever cases it started with and whichever cases the loops reopened.
  pub drain-IsDistinct :
      (fuel : ℕ) (initial turns : List CaseId) (w : World)
      → (drain_agent_loop_queue env loop_fuel fuel initial w).0 ≡ ok (some turns)
      → IsDistinct turns
  unfolding drain_agent_loop_queue
  drain-IsDistinct fuel initial turns w h =
      (drain-Once fuel (unseen [] initial) (unseen [] initial) turns w (AllIn-self _)
        (unseen-IsDistinct [] initial) h).0
