-- ===== src/Gate/Keeps.antt =====
-- The sweep, escalation and the allowed effects keep what every guarded write keeps.
pub mod Payments
pub mod Operations
use refundagent.Common.{
  ℕ, String, Bool, true, false, ◌||◌, Option, none, some, List, [], ◌∷◌, any, ◌≡◌, refl, inl, inr,
  arith, Bool-cases, if◌then◌else◌, ◌==◌,
}
use refundagent.Common.Int.{ℤ}
use refundagent.Actions.{Action, OrderRef}
use refundagent.Domain.Decimal.{Decimal}
use refundagent.Domain.Enums.{Actor, Channel, EscalationOrigin, RefundStatus}
use refundagent.Domain.Payload.{Payload}
use refundagent.Domain.Result.{ok, err}
use refundagent.Domain.Texts.{CustomerId, CaseId, OrderId, RefundId, Text, Instant}
use refundagent.Gate.Common.{
  load_rule_context_for_case, append_refund_expired, expire_rows, expire_due_refunds_for_customer,
  append_action_denied, append_escalated_and_case_closed, note_case,
}
use refundagent.Gate.Effects.{
  dispatch_allow_verdict, dispatch_require_approval_verdict, allow_get_orders, allow_link_order,
  allow_send_reply, allow_request_verification, allow_finish,
}
use refundagent.Gate.Operations.{
  Evidence, by_capability, escalate_case, finalize_propose_refund_verdict, execute_refund_action,
  perform, act_on, execute_ordinary_action, execute_agent_action, send_unknown_sender_reply,
}
use refundagent.Gate.Operator.{
  customer_id_for_case, report_conflict, approve_pending, approve_refund, reject_pending,
  reject_refund,
}
use refundagent.Gate.Refund.{
  RefundKey, Clearance, Proposal, append_refund_event, record_refund_executed_after_payment,
  execute_payment_after_committed_intent, insert_refund, settle_proposal, insert_proposal,
  follow_verdict, persist_refund_proposal, append_open_refund_race_denial, deny_race, commit,
  conclude_proposal, execute_propose_refund,
}
use refundagent.Gate.Verification.{confirm_found, confirm_verification, VerificationRequestLookup}
use refundagent.Policy.Authorisation.{Authorisation}
use refundagent.Policy.Evaluate.{Authorised, authorised, blocked}
use refundagent.Policy.Verdicts.{Verdict, allow, block, Blocking, Deny, RuleContext}
use refundagent.Store.Keeps.{Keeps, Keeps-bind, Keeps-if}
use refundagent.Store.Keeps.Stable.{Writes, Sends}
use refundagent.Store.Keeps.Rules.{store_rules, Keeps-transition}
use refundagent.Store.Queries.{live_on}
use refundagent.Store.Rows.{Database, CaseRow, RefundRow}
use refundagent.Store.Session.{Tx, World, ◌>>=◌}

module _ {P : World → Type 0} (wr : Writes P) where
  pub Keeps-load_rule_context : (k : CaseId) → Keeps P (load_rule_context_for_case k)
  unfolding load_rule_context_for_case
  Keeps-load_rule_context k = search store_rules depth 20

  pub Keeps-refund_expired :
      (c : CustomerId) (row : RefundRow) → Keeps P (append_refund_expired c row)
  unfolding append_refund_expired
  Keeps-refund_expired c row = search store_rules

  pub Keeps-expire_rows :
      (c : CustomerId) (rows : List RefundRow) (ks : List CaseId) → Keeps P (expire_rows c rows ks)
  unfolding expire_rows append_refund_expired
  Keeps-expire_rows c [] ks = record { at = λ w h. h }
  Keeps-expire_rows c (row ∷ rows) ks =
      Keeps-bind _ _
        (Keeps-transition wr row.id RefundStatus.pending_approval RefundStatus.expired none)
        (λ changed.
          Keeps-if changed _ _
            (Keeps-bind _ _ (Keeps-refund_expired c row)
              (λ _. Keeps-expire_rows c rows (note_case row.case_id ks)))
            (Keeps-expire_rows c rows ks))

  pub Keeps-denied :
      (c : CustomerId) (k : CaseId) (a : Action) (d : Deny) → Keeps P (append_action_denied c k a d)
  unfolding append_action_denied
  Keeps-denied c k a d = search store_rules

  pub Keeps-expire : (c : CustomerId) → Keeps P (expire_due_refunds_for_customer c)
  unfolding expire_due_refunds_for_customer
  Keeps-expire c = search (store_rules, Keeps-expire_rows) depth 20

  pub Keeps-closed :
      (c : CustomerId) (k : CaseId) (origin : EscalationOrigin) (reason : Text) (ticket : ℕ)
      → Keeps P (append_escalated_and_case_closed c k origin reason ticket)
  unfolding append_escalated_and_case_closed
  Keeps-closed c k origin reason ticket = search store_rules depth 12

module _ {P : World → Type 0} (se : Sends P) where
  pub Keeps-escalate :
      (k : CaseId) (origin : EscalationOrigin) (e : Evidence) → Keeps P (escalate_case k origin e)
  unfolding escalate_case
  Keeps-escalate k origin e = search (store_rules, Keeps-closed) depth 20

  pub Keeps-allowed :
      (auth : Authorisation) (row : CaseRow) (k : CaseId) (a : Action) (ctx : RuleContext)
      → Keeps P (dispatch_allow_verdict auth row k a ctx)
  unfolding dispatch_allow_verdict allow_get_orders allow_link_order allow_send_reply
      allow_request_verification allow_finish
  Keeps-allowed auth row k (Action.propose_refund amount) ctx = search store_rules
  Keeps-allowed auth row k Action.get_orders ctx = search store_rules depth 20
  Keeps-allowed auth row k (Action.link_order (OrderRef.named o)) ctx = search store_rules depth 20
  Keeps-allowed auth row k (Action.link_order (OrderRef.unnamed s)) ctx =
      search store_rules depth 20
  Keeps-allowed auth row k (Action.send_reply subject body) ctx = search store_rules depth 20
  Keeps-allowed auth row k Action.request_verification ctx = search store_rules depth 20
  Keeps-allowed auth row k (Action.finish summary) ctx = search store_rules depth 20
  Keeps-allowed auth row k (Action.escalate reason) ctx = search store_rules

  pub Keeps-no_approval : (a : Action) → Keeps P (dispatch_require_approval_verdict a)
  unfolding dispatch_require_approval_verdict
  Keeps-no_approval (Action.propose_refund amount) = search store_rules
  Keeps-no_approval Action.get_orders = search store_rules
  Keeps-no_approval (Action.link_order o) = search store_rules
  Keeps-no_approval (Action.send_reply subject body) = search store_rules
  Keeps-no_approval Action.request_verification = search store_rules
  Keeps-no_approval (Action.finish summary) = search store_rules
  Keeps-no_approval (Action.escalate reason) = search store_rules
