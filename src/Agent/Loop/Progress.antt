-- ===== src/Agent/Loop/Progress.antt =====
-- agent/loop.py: a round of the loop that goes on adds an agent step to the case's log, and a round
-- that starts with the most steps permitted returns.
use refundagent.Common.{
  ℕ, ◌+◌, ◌≤◌, leb, Bool, true, false, String, Option, none, some, List, ◌≡◌, refl, arith,
}
use refundagent.Config
use refundagent.Agent.Boundary.{Environment, ParseOutcome}
use refundagent.Agent.Loop.{
  LoopContext, load_loop_context, stops_at_limit, stops_in_status, append_invalid_output,
  handle_outcome, handle_boundary, consult_model, after_entry, loop_round,
}
use refundagent.Agent.Loop.Keeps.{Keeps-entry, Keeps-boundary}
use refundagent.Agent.Prompt.Build.{Prompt}
use refundagent.Domain.Enums.{CaseStatus}
use refundagent.Domain.Texts.{CaseId, Text}
use refundagent.Gate.Keeps.{Keeps-expire, Keeps-escalate}
use refundagent.Gate.Progress.{HasSteps-Sends, steps_in}
use refundagent.Gate.Progress.Actions.{At, Steps, Steps-append, Returns-found}
use refundagent.Gate.Progress.Proposals.{Steps-act}
use refundagent.Projection.Case.{CaseSummary, counts_as_agent_step, project_case_summary}
use refundagent.Store.Keeps.{keeps_rules}
use refundagent.Store.Keeps.Rules.{store_rules}
use refundagent.Store.Queries.{load_customer_events}
use refundagent.Store.Returns.{
  Returns, Returns-given, Returns-pure, Returns-bind, Returns-after, Returns-weaken,
}
use refundagent.Store.Rows.{CaseRow}
use refundagent.Store.Session.{Tx, World, gets}

-- A round that goes on has added a step.
abbrev pub steps_after : ℕ → Bool → ℕ
steps_after n true = n
steps_after n false = 1 + n

module _ (env : Environment) (row : CaseRow) (n : ℕ) where
  abbrev Rounds : Tx Bool → Type 0
  Rounds m = Returns (At row n) (λ stop. At row (steps_after n stop)) m

  Steps-invalid :
      (raw error : String) → Steps row n (append_invalid_output env row.id row raw error)
  unfolding append_invalid_output counts_as_agent_step
  Steps-invalid raw error =
      Returns-after _ _ (search keeps_rules) (λ audited. Steps-append row n none _ _ _ refl)

  Rounds-outcome : (raw : String) (o : ParseOutcome) → Rounds (handle_outcome env row.id row raw o)
  unfolding handle_outcome
  Rounds-outcome raw (ParseOutcome.parse_failure error) =
      Returns-bind _ _ _ (Steps-invalid raw error) (λ e. Returns-pure _ (λ w h. h))
  Rounds-outcome raw (ParseOutcome.parse_success a) =
      Returns-bind _ _ _ (Steps-act row n a) (λ v. Returns-pure _ (λ w h. h))

  Rounds-boundary :
      (reply : Option (String × ParseOutcome)) → Rounds (handle_boundary env row.id row reply)
  unfolding handle_boundary
  Rounds-boundary none = Returns-pure _ (λ w h. h)
  Rounds-boundary (some (raw, o)) = Rounds-outcome raw o

  Rounds-consult :
      (prompt : Prompt) (violation : Option Text)
      → Rounds (consult_model env row.id row prompt violation)
  unfolding consult_model
  Rounds-consult prompt (some reason) =
      Returns-after _ _ (search (Keeps-escalate, HasSteps-Sends row n))
        (λ e. Returns-pure _ (λ w h. h))
  Rounds-consult prompt none =
      Returns-after _ _ (Keeps-boundary (HasSteps-Sends row n) env row.id prompt) Rounds-boundary

  Rounds-entered :
      (context : LoopContext) (at_entry : Bool)
      → context.case_row ≡ row
      → Rounds (after_entry env row.id context at_entry)
  unfolding after_entry
  Rounds-entered context true same = Returns-pure _ (λ w h. h)
  Rounds-entered context false same = Returns-after _ _ (search keeps_rules) (λ prompt.
      Returns-after _ _ (search keeps_rules)
        (λ violation. rw same (Rounds-consult prompt violation)))

module _ (row : CaseRow) (n : ℕ) where
  -- The log that is read shows the steps.
  Returns-events :
      Returns
        (At row n)
        (λ events w. At row n w × (n ≤ steps_in row.id row.customer_id events))
        (gets (λ w. load_customer_events row.customer_id w.db))
  unfolding gets
  Returns-events = record {
    at = λ w events h returned.
        let same : load_customer_events row.customer_id w.db ≡ events = cc in (h, rw (← same) h.2);
  }

  -- What the round knows of its context.
  abbrev Knows : LoopContext → Type 0
  Knows context = (context.case_row ≡ row) × (n ≤ context.case_summary.step_count)

  Returns-context :
      Returns (At row n) (λ context w. At row n w × Knows context) (load_loop_context row.id)
  unfolding load_loop_context project_case_summary
  Returns-context = Returns-found row n _ (
      Returns-after _ _ (search keeps_rules) (λ found.
        Returns-after _ _ (search keeps_rules) (λ customer.
          Returns-bind _ _ _ Returns-events (λ events.
            Returns-given (n ≤ steps_in row.id row.customer_id events) _ _ (λ shown.
              Returns-after _ _ (search (store_rules, HasSteps-Sends row n)) (λ at.
                Returns-after _ _ (search keeps_rules)
                  (λ rows. Returns-pure _ (λ w h. (h, (refl, shown))))))))))

module _ (env : Environment) (row : CaseRow) (n : ℕ) where
  -- A round that goes on has added a step.
  pub Returns-round :
      (peers : List CaseId)
      → Returns (At row n) (λ r. At row (steps_after n r.0)) (loop_round env row.id peers)
  unfolding loop_round
  Returns-round peers = Returns-found row n _ (
      Returns-after _ _ (search (Keeps-expire, HasSteps-Sends row n)) (λ reopened.
        Returns-bind _ _ _ (Returns-context row n) (λ context.
          Returns-given (Knows row n context) _ _ (λ known.
            Returns-after _ _ (Keeps-entry (HasSteps-Sends row n) row.id _ _) (λ at_entry.
              Returns-bind _ _ _ (Rounds-entered env row n context at_entry known.0)
                (λ stop. Returns-pure _ (λ w h. h)))))))

-- With the most steps permitted the loop stops at its entry.
abbrev IsTrue : Bool → World → Type 0
IsTrue b w = b ≡ true

module _ (row : CaseRow) (s : CaseSummary) (reached : Config.max_agent_steps ≤ s.step_count) where
  limit_test : leb Config.max_agent_steps s.step_count ≡ true
  limit_test = ground arith

  Stops-limit : Returns (At row Config.max_agent_steps) IsTrue (stops_at_limit row.id s)
  unfolding stops_at_limit
  Stops-limit = rw limit_test (
      Returns-after _ _ (search (Keeps-escalate, HasSteps-Sends row Config.max_agent_steps))
        (λ e. Returns-pure _ (λ w h. refl)))

  Stops-entry :
      (status : CaseStatus)
      → Returns (At row Config.max_agent_steps) IsTrue (stops_in_status row.id s status)
  unfolding stops_in_status
  Stops-entry CaseStatus.closed = Returns-pure _ (λ w h. refl)
  Stops-entry CaseStatus.awaiting_approval = Returns-pure _ (λ w h. refl)
  Stops-entry CaseStatus.awaiting_verification = Returns-pure _ (λ w h. refl)
  Stops-entry CaseStatus.opened = Stops-limit

Stops-entered :
    (env : Environment) (row : CaseRow) (context : LoopContext) (at_entry : Bool)
    → at_entry ≡ true
    → Returns (λ _. Unit {0}) IsTrue (after_entry env row.id context at_entry)
unfolding after_entry
Stops-entered env row context true h = Returns-pure _ (λ w h. refl)
Stops-entered env row context false h = cc

module _ (env : Environment) (row : CaseRow) where
  pub Stops-round :
      (peers : List CaseId)
      → Returns (At row Config.max_agent_steps) (λ r _. r.0 ≡ true) (loop_round env row.id peers)
  unfolding loop_round
  Stops-round peers =
      let n : ℕ = Config.max_agent_steps in
      Returns-found row n _ (
        Returns-after _ _ (search (Keeps-expire, HasSteps-Sends row n)) (λ reopened.
          Returns-bind _ _ _ (Returns-context row n) (λ context.
            Returns-given (Knows row n context) _ _ (λ known.
              Returns-bind _ _ _ (Stops-entry row context.case_summary known.1 _) (λ at_entry.
                Returns-weaken _ (λ w h. (tt, h)) (λ a w h. h)
                  (Returns-given (at_entry ≡ true) _ _ (λ ended.
                    Returns-bind _ _ _ (Stops-entered env row context at_entry ended)
                      (λ stop. Returns-pure _ (λ w h. h)))))))))
