-- ===== src/Api/Keeps.antt =====
-- The queue and the routes keep what every guarded write keeps.
pub mod Routes
use refundagent.Common.{
  ℕ, zero, suc, String, Bool, true, false, Option, none, some, List, [], ◌∷◌, ◌++◌, any, ◌≡◌, refl,
  inl, inr, Bool-cases, ◌&&◌, ◌==◌, leb, if◌then◌else◌,
}
use refundagent.Agent.Boundary.{
  Environment, ParseOutcome, ModelReply, handle_reply, invoke_model_boundary,
}
use refundagent.Agent.Loop.{
  LoopContext, load_loop_context, stops_at_limit, stops_in_status, append_invalid_output,
  handle_outcome, handle_boundary, consult_model, after_entry, loop_round, run_agent_loop,
}
use refundagent.Agent.Loop.Keeps.{Keeps-run}
use refundagent.Api.Queue.{
  after_turn, case_may_run_agent_loop, case_is_open, may_run, run_if, queue_turn, drain_from,
  drain_agent_loop_queue,
}
use refundagent.Domain.Enums.{CaseStatus}
use refundagent.Domain.Result.{Result, Result-cases, ok, err}
use refundagent.Domain.Texts.{CustomerId, CaseId, Text}
use refundagent.Gate.Keeps.{Keeps-expire, Keeps-escalate}
use refundagent.Gate.Keeps.Operations.{Acts, Keeps-act}
use refundagent.Projection.Case.{CaseSummary}
use refundagent.Store.Keeps.{Keeps, Keeps-bind, Keeps-if, Keeps-pure}
use refundagent.Store.Keeps.Rules.{store_rules}
use refundagent.Store.Rows.{Database, CaseRow}
use refundagent.Store.Session.{Tx, World}

module _ {P : World → Type 0} (ac : Acts P) (env : Environment) (loop_fuel : ℕ) where
  Keeps-may_run : (k : CaseId) (found : Option CaseRow) → Keeps P (may_run k found)
  unfolding may_run case_may_run_agent_loop
  Keeps-may_run k none = search store_rules
  Keeps-may_run k (some row) = search store_rules depth 12

  Keeps-run_if : (k : CaseId) (runs : Bool) → Keeps P (run_if env loop_fuel k runs)
  unfolding run_if
  Keeps-run_if k true = search (store_rules, Keeps-run)
  Keeps-run_if k false = search store_rules

  pub Keeps-turn : (k : CaseId) → Keeps P (queue_turn env loop_fuel k)
  unfolding queue_turn
  Keeps-turn k = search (store_rules, Keeps-may_run, Keeps-run_if) depth 12

  Keeps-after_turn :
      (again : List CaseId → List CaseId → Tx (Option (List CaseId))) (k : CaseId)
      (seen queue : List CaseId) (peers : Option (List CaseId))
      → ((xs ys : List CaseId) → Keeps P (again xs ys))
      → Keeps P (after_turn again k seen queue peers)
  unfolding after_turn
  Keeps-after_turn again k seen queue none kept = search store_rules
  Keeps-after_turn again k seen queue (some peers) kept = search (store_rules, kept) depth 12

  Keeps-drain :
      (fuel : ℕ) (seen queue : List CaseId) → Keeps P (drain_from env loop_fuel fuel seen queue)
  unfolding drain_from
  Keeps-drain fuel seen [] = search store_rules
  Keeps-drain zero seen (k ∷ queue) = search store_rules
  Keeps-drain (suc fuel) seen (k ∷ queue) =
      Keeps-bind _ _ (Keeps-turn k)
        (λ peers. Keeps-after_turn _ k seen queue peers (Keeps-drain fuel))

  pub Keeps-queue :
      (fuel : ℕ) (ks : List CaseId) → Keeps P (drain_agent_loop_queue env loop_fuel fuel ks)
  unfolding drain_agent_loop_queue
  Keeps-queue fuel ks = Keeps-drain fuel _ _
