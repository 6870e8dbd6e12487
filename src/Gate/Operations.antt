-- ===== src/Gate/Operations.antt =====
-- gate/operations.py: the agent's actions, dispatched by their verdict, and escalation.
pub mod Escalation
use refundagent.Common.{ℕ, ◌∷◌, String, Bool, true, false, ◌||◌, Option, none, some, is_some}
use refundagent.Actions.{Action}
use refundagent.Domain.Decimal.{Decimal}
use refundagent.Domain.Enums.{EscalationOrigin}
use refundagent.Domain.Result.{
  Result, ok, err, ◌>>=◌ as bind, authorisation_error, value_error, case_not_found,
}
use refundagent.Domain.Texts.{CaseId, Text, text}
use refundagent.Gate.Common.{
  append_action_denied, append_escalated_and_case_closed, load_rule_context_for_case,
}
use refundagent.Gate.Effects.{dispatch_allow_verdict, dispatch_require_approval_verdict}
use refundagent.Gate.Refund.{execute_propose_refund}
use refundagent.Policy.Authorisation.{Authorisation, spend}
use refundagent.Policy.Evaluate.{Authorised, authorised, blocked, authorise}
use refundagent.Policy.Verdicts.{Verdict, allow, block, Blocking, ForceEscalate, RuleContext}
use refundagent.Projection.Types.{StoredEvent}
use refundagent.Store.Adapters.{ticketing_escalate, mailer_send}
use refundagent.Store.Queries.{find_case}
use refundagent.Store.Rows.{CaseRow}
use refundagent.Store.Session.{Tx, World, pure, raise, lift, gets, require, ◌>>=◌, ◌>>◌}

-- The evidence that a caller of `escalate_case` gives.
pub record Evidence : Type 0 where
  pub reason : Option Text
  pub authorisation : Option Authorisation
  pub force_escalate : Option ForceEscalate

-- The reason that a spent capability for `Escalate` gives.
abbrev bound_reason : CaseId → Authorisation → Action → Result Text
bound_reason k auth (Action.escalate reason) =
    bind (spend auth k (Action.escalate reason)) (λ _. ok (text reason))
bound_reason k auth _ = err authorisation_error

abbrev no_other : Bool → Result Text → Result Text
no_other true r = err authorisation_error
no_other false r = r

abbrev agent_reason : CaseId → Evidence → Option Authorisation → Result Text
agent_reason k e none = err authorisation_error
agent_reason k e (some auth) =
    no_other (is_some e.force_escalate || is_some e.reason) (bound_reason k auth auth.action)

-- A single piece of evidence, and none of the kinds that the origin does not accept.
abbrev only : Option Text → Bool → Result Text
only none other = err value_error
only (some reason) true = err value_error
only (some reason) false = ok reason

abbrev forced_reason : Option ForceEscalate → Option Text
forced_reason none = none
forced_reason (some f) = some f.reason

-- The chain on the origin in `escalate_case`.
unfoldable pub escalation_reason : EscalationOrigin → CaseId → Evidence → Result Text
escalation_reason EscalationOrigin.agent k e = agent_reason k e e.authorisation
escalation_reason EscalationOrigin.policy k e =
    only (forced_reason e.force_escalate) (is_some e.authorisation || is_some e.reason)
escalation_reason _ k e = only e.reason (is_some e.authorisation || is_some e.force_escalate)

unfoldable pub escalate_case : CaseId → EscalationOrigin → Evidence → Tx StoredEvent
unfolding escalation_reason
escalate_case k origin e = do
  found ← gets (λ w. find_case k w.db)
  case_row ← require found case_not_found
  reason ← lift (escalation_reason origin k e)
  ticket ← ticketing_escalate reason
  append_escalated_and_case_closed case_row.customer_id k origin reason ticket

abbrev pub by_reason : Text → Evidence
by_reason reason = record { reason = some reason; authorisation = none; force_escalate = none }

abbrev pub by_capability : Authorisation → Evidence
by_capability auth = record { reason = none; authorisation = some auth; force_escalate = none }

abbrev pub by_force : ForceEscalate → Evidence
by_force f = record { reason = none; authorisation = none; force_escalate = some f }

-- `_finalize_propose_refund_verdict`
unfoldable pub finalize_propose_refund_verdict : CaseId → Verdict → Tx Verdict
unfolding escalate_case
finalize_propose_refund_verdict k (block (Blocking.force_escalate f)) = do
  escalate_case k EscalationOrigin.policy (by_force f)
  pure (block (Blocking.force_escalate f))
finalize_propose_refund_verdict k v = pure v

-- `execute_agent_action` for a proposed refund.
unfoldable pub execute_refund_action : CaseId → Decimal → Tx Verdict
unfolding finalize_propose_refund_verdict
execute_refund_action k amount = do
  found ← gets (λ w. find_case k w.db)
  case_row ← require found case_not_found
  v ← execute_propose_refund case_row k amount
  finalize_propose_refund_verdict k v

-- The inner `match` on an authorised action.
unfoldable pub perform : CaseId → CaseRow → RuleContext → Authorisation → Action → Tx StoredEvent
unfolding escalate_case
perform k case_row ctx auth (Action.escalate reason) =
    escalate_case k EscalationOrigin.agent (by_capability auth)
perform k case_row ctx auth a = dispatch_allow_verdict auth case_row k a ctx

-- The outer `match` on the verdict or the capability.
unfoldable pub act_on : CaseId → CaseRow → RuleContext → Action → Authorised → Tx Verdict
unfolding perform
act_on k case_row ctx a (blocked (Blocking.deny d)) = do
  append_action_denied case_row.customer_id k a d
  pure (block (Blocking.deny d))
act_on k case_row ctx a (blocked (Blocking.force_escalate f)) = do
  escalate_case k EscalationOrigin.policy (by_force f)
  pure (block (Blocking.force_escalate f))
act_on k case_row ctx a (blocked (Blocking.require_approval r)) =
    dispatch_require_approval_verdict a
act_on k case_row ctx a (authorised auth) = do perform k case_row ctx auth a; pure allow

-- `execute_agent_action` for the other actions.
unfoldable pub execute_ordinary_action : CaseId → Action → Tx Verdict
unfolding act_on
execute_ordinary_action k a = do
  loaded ← load_rule_context_for_case k
  verdict ← lift (authorise loaded.1 a)
  act_on k loaded.0 loaded.1 a verdict

unfoldable pub execute_agent_action : CaseId → Action → Tx Verdict
unfolding execute_refund_action execute_ordinary_action
execute_agent_action k (Action.propose_refund amount) = execute_refund_action k amount
execute_agent_action k a = execute_ordinary_action k a

-- `send_unknown_sender_reply`
unfoldable pub send_unknown_sender_reply : String → Tx (Unit {0})
send_unknown_sender_reply email =
    mailer_send email "We could not find your account"
      (text "Please contact support using the email address on your account.")
