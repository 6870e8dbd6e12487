-- ===== src/Agent/Loop/Ends.antt =====
-- agent/loop.py: the `while True` of the loop ends.
use refundagent.Common.{
  ℕ, zero, suc, ◌+◌, ◌≤◌, ◌<◌, ◌≡◌, ◌≢◌, ◌⊎◌, ◌==◌, Bool, true, false, Option, none, some, List, [],
  ◌∷◌, subst, refl, arith, inl, inr, Bool-cases, Option-cases, find?, eq_of_==, if◌then◌else◌, ◌∙◌,
}
use refundagent.Config
use refundagent.Agent.Boundary.{Environment}
use refundagent.Agent.Loop.{loop_round, run_agent_loop}
use refundagent.Agent.Loop.Progress.{steps_after, Returns-round, Stops-round}
use refundagent.Domain.Result.{Error, Result, ok, err, case_not_found}
use refundagent.Domain.Texts.{CaseId}
use refundagent.Gate.Progress.Actions.{At}
use refundagent.Store.Append.Order.{IsCounted}
use refundagent.Store.Queries.{find_case}
use refundagent.Store.Returns.{Returns, Returns-pure, Returns-bind}
use refundagent.Store.Rows.{CaseRow}
use refundagent.Store.Session.{Tx, World, pure, after, ◌>>=◌}

-- The loop came to its end.
abbrev pub Ended : Option (List CaseId) → World → Type 0
Ended out w = out ≢ none

pub eq_or_lt : (a b : ℕ) → a ≤ b → (a ≡ b) ⊎ (a < b)
eq_or_lt a b h = elim (Bool-cases (a == b)) [
  | inl same ↦ inl (eq_of_== a b same)
  | inr other ↦ inr (ground arith)
]

module _ (env : Environment) (row : CaseRow) where
  goes_on :
      (s fuel : ℕ) (stop : Bool) (peers : List CaseId)
      → ((ps : List CaseId) → Returns (At row (1 + s)) Ended (run_agent_loop env row.id fuel ps))
      → Returns
          (At row (steps_after s stop))
          Ended
          (if stop then pure (some peers) else run_agent_loop env row.id fuel peers)
  goes_on s fuel true peers again = Returns-pure _ (λ w h. cc)
  goes_on s fuel false peers again = again peers

  stops_here :
      (m : Tx (Option (List CaseId))) (stop : Bool) (peers : List CaseId)
      → Returns (λ w. stop ≡ true) Ended (if stop then pure (some peers) else m)
  stops_here m true peers = Returns-pure _ (λ w h. cc)
  stops_here m false peers = record { at = λ w a h returned. cc }

  Ends :
      (fuel s : ℕ)
      → s ≤ Config.max_agent_steps
      → Config.max_agent_steps < fuel + s
      → (peers : List CaseId) → Returns (At row s) Ended (run_agent_loop env row.id fuel peers)
  unfolding run_agent_loop
  Ends zero s low enough peers = absurd (omega arith)
  Ends (suc fuel) s low enough peers = elim (eq_or_lt s Config.max_agent_steps low) [
    | inl full ↦
        rw full (Returns-bind _ _ _ (Stops-round env row peers) (λ r. stops_here _ r.0 r.1))
    | inr room ↦
        Returns-bind _ _ _ (Returns-round env row s peers)
          (λ r. goes_on s fuel r.0 r.1 (Ends fuel (1 + s) (omega arith) (omega arith)))
  ]

module _ (env : Environment) (k : CaseId) where
  run-missing :
      (fuel : ℕ) (peers : List CaseId) (w : World)
      → find_case k w.db ≡ none
      → (run_agent_loop env k (suc fuel) peers w).0 ≡ err case_not_found
  unfolding run_agent_loop loop_round ◌>>=◌
  run-missing fuel peers w missing = rw missing refl

find-id :
    (rows : List CaseRow) (k : CaseId) (row : CaseRow)
    → find? (λ r. r.id == k) rows ≡ some row
    → row.id ≡ k
find-id [] k row h = cc
find-id (x ∷ xs) k row h = elim (Bool-cases (x.id == k)) [
  | inl hit ↦ ground (arith, hit, eq_of_== x.id k)
  | inr miss ↦ find-id xs k row (rw miss at h)
]

module _ {A : Type 0} where
  -- A result that is not `none`.
  pub answered :
      (r : Result (Option A))
      → ((o : Option A) → r ≡ ok o → o ≢ none)
      → ((e : Error) × (r ≡ err e)) ⊎ ((a : A) × (r ≡ ok (some a)))
  answered (err e) h = inl (e, refl)
  answered (ok none) h = absurd (h none refl refl)
  answered (ok (some a)) h = inr (a, refl)

-- The loop raises, or it returns the cases to resume.
abbrev pub IsAnswered {ℓ} : {A : Type ℓ} → Result (Option A) → Type ℓ
IsAnswered {A} r = ((e : Error) × (r ≡ err e)) ⊎ ((a : A) × (r ≡ ok (some a)))

pub ended : {A : Type 0} (r : Result (Option A)) → IsAnswered r → r ≢ ok none
ended r (inl (e, raised)) = λ h. cc
ended r (inr (a, returned)) = λ h. cc

ends-row :
    (env : Environment) (row : CaseRow) (fuel : ℕ) (w : World)
    → IsCounted w.db
    → Config.max_agent_steps < fuel
    → find_case row.id w.db ≡ some row
    → IsAnswered (run_agent_loop env row.id fuel [] w).0
ends-row env row fuel w counted enough there = answered _ (λ o went.
    (Ends env row fuel 0 (omega arith) (omega arith) []).at w o (counted, there, omega arith) went)

-- When no event of the log has a number above its customer's counter, and the fuel is more than
-- the most steps that a case may have, the loop of a case, started with no peers, raises or
-- returns the cases to resume: it never runs out of fuel, whatever the model answers.
pub run_agent_loop-ends :
    (env : Environment) (k : CaseId) (fuel : ℕ) (w : World)
    → IsCounted w.db
    → Config.max_agent_steps < fuel
    → IsAnswered (run_agent_loop env k fuel [] w).0
run_agent_loop-ends env k zero w counted enough = absurd (omega arith)
run_agent_loop-ends env k (suc fuel) w counted enough = elim (Option-cases (find_case k w.db)) [
  | inl missing ↦ inl (case_not_found, run-missing env k fuel [] w missing)
  | inr (row, there) ↦
      subst (λ j. find_case j w.db ≡ some row → IsAnswered (run_agent_loop env j (suc fuel) [] w).0)
        (find-id w.db.cases k row there) (ends-row env row (suc fuel) w counted enough) there
]

module _ (env : Environment) (k : CaseId) where
  -- More fuel leaves a run that has ended as it is.
  more-rest :
      (f : ℕ) (r : Result (Bool × List CaseId)) (w : World)
      → ((peers : List CaseId)
          → (run_agent_loop env k f peers w).0 ≢ ok none
          → run_agent_loop env k (suc f) peers w ≡ run_agent_loop env k f peers w)
      → (after (λ x. if x.0 then pure (some x.1) else run_agent_loop env k f x.1) r w).0 ≢ ok none
      → after (λ x. if x.0 then pure (some x.1) else run_agent_loop env k (suc f) x.1) r w
        ≡ after (λ x. if x.0 then pure (some x.1) else run_agent_loop env k f x.1) r w
  more-rest f (err e) w again h = refl
  more-rest f (ok (true, peers)) w again h = refl
  more-rest f (ok (false, peers)) w again h = again peers h

  more-fuel :
      (f : ℕ) (peers : List CaseId) (w : World)
      → (run_agent_loop env k f peers w).0 ≢ ok none
      → run_agent_loop env k (suc f) peers w ≡ run_agent_loop env k f peers w
  unfolding run_agent_loop ◌>>=◌
  more-fuel zero peers w h = absurd (h refl)
  more-fuel (suc f) peers w h =
      let (r, w') = loop_round env k peers w in more-rest f r w' (λ ps. more-fuel f ps w') h

  -- When no event of the log has a number above its customer's counter, every amount of fuel above
  -- the most steps that a case may have gives the same result and the same state.
  pub run_agent_loop-fuel :
      (fuel : ℕ) (w : World)
      → IsCounted w.db
      → Config.max_agent_steps < fuel
      → run_agent_loop env k fuel [] w ≡ run_agent_loop env k (suc Config.max_agent_steps) [] w
  run_agent_loop-fuel zero w counted enough = absurd (omega arith)
  run_agent_loop-fuel (suc f) w counted enough =
      elim (eq_or_lt Config.max_agent_steps f (omega arith)) [
        | inl same ↦ rw (← same) refl
        | inr more ↦
            more-fuel f [] w (ended _ (run_agent_loop-ends env k f w counted more))
            ∙ run_agent_loop-fuel f w counted more
      ]
