-- ===== src/Agent/Loop/Keeps.antt =====
-- The agent's loop keeps what every guarded write keeps.
use refundagent.Common.{ℕ, zero, suc, String, Bool, true, false, Option, none, some, List}
use refundagent.Agent.Boundary.{
  Environment, ParseOutcome, Parsed, ModelReply, close_after_failure, handle_parsed, handle_reply,
  invoke_model_boundary,
}
use refundagent.Agent.Loop.{
  LoopContext, load_loop_context, stops_at_limit, stops_in_status, append_invalid_output,
  handle_outcome, handle_boundary, consult_model, after_entry, loop_round, run_agent_loop,
}
use refundagent.Agent.Prompt.Build.{Prompt}
use refundagent.Domain.Enums.{CaseStatus}
use refundagent.Domain.Texts.{CaseId, Text}
use refundagent.Gate.Keeps.{Keeps-expire, Keeps-escalate}
use refundagent.Gate.Keeps.Operations.{Acts, Keeps-act}
use refundagent.Projection.Case.{CaseSummary}
use refundagent.Store.Keeps.Stable.{Sends}
use refundagent.Store.Keeps.{Keeps, Keeps-bind, Keeps-if, Keeps-pure}
use refundagent.Store.Keeps.Rules.{store_rules}
use refundagent.Store.Rows.{CaseRow}
use refundagent.Store.Session.{World}

module _ {P : World → Type 0} (se : Sends P) where
  pub Keeps-context : (k : CaseId) → Keeps P (load_loop_context k)
  unfolding load_loop_context
  Keeps-context k = search store_rules depth 30

  Keeps-limit : (k : CaseId) (s : CaseSummary) → Keeps P (stops_at_limit k s)
  unfolding stops_at_limit
  Keeps-limit k s = search (store_rules, Keeps-escalate) depth 12

  pub Keeps-entry :
      (k : CaseId) (s : CaseSummary) (status : CaseStatus) → Keeps P (stops_in_status k s status)
  unfolding stops_in_status
  Keeps-entry k s CaseStatus.closed = search store_rules
  Keeps-entry k s CaseStatus.awaiting_approval = search store_rules
  Keeps-entry k s CaseStatus.awaiting_verification = search store_rules
  Keeps-entry k s CaseStatus.opened = Keeps-limit k s

module _ {P : World → Type 0} (se : Sends P) (env : Environment) where
  Keeps-failure : (k : CaseId) (exception : String) → Keeps P (close_after_failure k exception)
  unfolding close_after_failure
  Keeps-failure k exception = search (store_rules, Keeps-escalate) depth 12

  Keeps-parsed : (k : CaseId) (raw : String) (p : Parsed) → Keeps P (handle_parsed k raw p)
  unfolding handle_parsed
  Keeps-parsed k raw (Parsed.parsed outcome) = search store_rules
  Keeps-parsed k raw (Parsed.raised exception) = Keeps-failure k exception

  Keeps-reply : (k : CaseId) (reply : ModelReply) → Keeps P (handle_reply env k reply)
  unfolding handle_reply
  Keeps-reply k (ModelReply.answered raw) = Keeps-parsed k raw _
  Keeps-reply k (ModelReply.failed exception) = Keeps-failure k exception

  pub Keeps-boundary : (k : CaseId) (prompt : Prompt) → Keeps P (invoke_model_boundary env k prompt)
  unfolding invoke_model_boundary
  Keeps-boundary k prompt = search (store_rules, Keeps-reply)

  Keeps-invalid :
      (k : CaseId) (row : CaseRow) (raw error : String)
      → Keeps P (append_invalid_output env k row raw error)
  unfolding append_invalid_output
  Keeps-invalid k row raw error = search store_rules

module _ {P : World → Type 0} (ac : Acts P) (env : Environment) where
  Keeps-outcome :
      (k : CaseId) (row : CaseRow) (raw : String) (o : ParseOutcome)
      → Keeps P (handle_outcome env k row raw o)
  unfolding handle_outcome
  Keeps-outcome k row raw (ParseOutcome.parse_failure error) =
      search (store_rules, Keeps-invalid) depth 12
  Keeps-outcome k row raw (ParseOutcome.parse_success a) = search (store_rules, Keeps-act) depth 12

  Keeps-handle :
      (k : CaseId) (row : CaseRow) (r : Option (String × ParseOutcome))
      → Keeps P (handle_boundary env k row r)
  unfolding handle_boundary
  Keeps-handle k row none = search store_rules
  Keeps-handle k row (some (raw, o)) = Keeps-outcome k row raw o

  Keeps-consult :
      (k : CaseId) (row : CaseRow) (prompt : Prompt) (v : Option Text)
      → Keeps P (consult_model env k row prompt v)
  unfolding consult_model
  Keeps-consult k row prompt none = search (store_rules, Keeps-boundary, Keeps-handle) depth 12
  Keeps-consult k row prompt (some reason) = search (store_rules, Keeps-escalate) depth 12

  Keeps-after_entry :
      (k : CaseId) (context : LoopContext) (stop : Bool) → Keeps P (after_entry env k context stop)
  unfolding after_entry
  Keeps-after_entry k context true = search store_rules
  Keeps-after_entry k context false = search (store_rules, Keeps-consult) depth 12

  pub Keeps-round : (k : CaseId) (peers : List CaseId) → Keeps P (loop_round env k peers)
  unfolding loop_round
  Keeps-round k peers =
      search (store_rules, Keeps-expire, Keeps-context, Keeps-entry, Keeps-after_entry) depth 30

  pub Keeps-run :
      (k : CaseId) (fuel : ℕ) (peers : List CaseId) → Keeps P (run_agent_loop env k fuel peers)
  unfolding run_agent_loop
  Keeps-run k zero peers = search store_rules
  Keeps-run k (suc fuel) peers =
      Keeps-bind _ _ (Keeps-round k peers)
        (λ r. Keeps-if r.0 _ _ (Keeps-pure _) (Keeps-run k fuel r.1))
