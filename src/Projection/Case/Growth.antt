-- ===== src/Projection/Case/Growth.antt =====
-- The fold of a case under one more event at the end of the log.
use mathlib.Core.List.{foldl-append, append-nil}
use refundagent.Common.{
  ℕ, ◌+◌, ◌≤◌, ◌≡◌, refl, true, List, [], ◌∷◌, ◌++◌, filter, filter-append, sort_by-append, All,
  All-filter, All-mono, arith, if◌then◌else◌, Bool-cases, inl, inr, leb, Option,
}
use refundagent.Domain.Payload.{Payload}
use refundagent.Domain.Texts.{CustomerId, CaseId, OrderId}
use refundagent.Projection.Case.{
  CaseFoldState, apply_payload, apply_case_event, in_case_fold, case_fold_events, fold_case,
  counts_as_agent_step,
}
use refundagent.Projection.Types.{StoredEvent, by_seq}

-- Applying an event to a case's state adds one to the step count, if the event counts as an agent
-- step, and else leaves the step count as it is.
pub step_count-apply :
    (seq : ℕ) (o : Option OrderId) (p : Payload) (s : CaseFoldState)
    → (apply_payload seq o p s).step_count
      ≡ (if counts_as_agent_step p then s.step_count + 1 else s.step_count)
unfolding apply_payload
step_count-apply seq o (Payload.case_opened m) s = ground arith
step_count-apply seq o p s = ground arith

leb_complete : (a b : ℕ) → a ≤ b → leb a b ≡ true
leb_complete a b h = ground arith

module _ (c : CustomerId) (k : CaseId) (events : List StoredEvent) (e : StoredEvent)
    (latest : All (λ x. x.seq ≤ e.seq) events) where
  -- When no event of a log has a larger number than a further event, the fold of the log with that
  -- event is the old fold with the event applied last, if the event is the case's own or verifies
  -- the customer, and else the old fold.
  pub fold_case-append : fold_case k c (events ++ e ∷ []) ≡ (
      if in_case_fold c k e
      then apply_case_event (fold_case k c events) e
      else fold_case k c events)
  unfolding fold_case case_fold_events
  fold_case-append = elim (Bool-cases (in_case_fold c k e)) [
    | inr outside ↦ rw (filter-append, outside, append-nil) refl
    | inl inside ↦
        rw
          (
            filter-append,
            inside,
            sort_by-append by_seq e (filter (in_case_fold c k) events) sorted,
            foldl-append,
          )
          refl
  ]
    where
      sorted : All (λ x. by_seq x e ≡ true) (filter (in_case_fold c k) events)
      sorted =
          All-filter (λ x. by_seq x e ≡ true) (in_case_fold c k) events
            (All-mono (λ x. x.seq ≤ e.seq) (λ x. by_seq x e ≡ true)
              (λ x h. leb_complete x.seq e.seq h) events latest)
