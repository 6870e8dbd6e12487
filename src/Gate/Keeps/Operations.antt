-- ===== src/Gate/Keeps/Operations.antt =====
-- The agent's actions, the operator's decisions and verification keep what every guarded write keeps.
use refundagent.Common.{ℕ, String, Option, none, some, List}
use refundagent.Actions.{Action}
use refundagent.Domain.Decimal.{Decimal}
use refundagent.Domain.Enums.{EscalationOrigin}
use refundagent.Domain.Texts.{CustomerId, CaseId, RefundId}
use refundagent.Gate.Operations.{
  by_capability, finalize_propose_refund_verdict, execute_refund_action, perform, act_on,
  execute_ordinary_action, execute_agent_action,
}
use refundagent.Gate.Operator.{
  customer_id_for_case, report_conflict, approve_pending, approve_refund, reject_pending,
  reject_refund,
}
use refundagent.Gate.Refund.{execute_propose_refund}
use refundagent.Gate.Verification.{confirm_found, confirm_verification, VerificationRequestLookup}
use refundagent.Policy.Authorisation.{Authorisation}
use refundagent.Policy.Evaluate.{Authorised, authorised, blocked}
use refundagent.Policy.Verdicts.{Verdict, allow, block, Blocking, RuleContext}
use refundagent.Store.Keeps.{Rolls, Keeps}
use refundagent.Store.Keeps.Stable.{
  Writes, WritesDatabase, Opens, Sends, Stable, Both, Both-Stable, Both-Opens,
}
use refundagent.Store.Keeps.Rules.{store_rules}
use refundagent.Store.Rows.{CaseRow, RefundRow, Database}
use refundagent.Store.Session.{World}
use refundagent.Gate.Keeps.{
  Keeps-load_rule_context, Keeps-denied, Keeps-expire, Keeps-escalate, Keeps-allowed,
  Keeps-no_approval,
}
use refundagent.Gate.Keeps.Payments.{Keeps-pay, Keeps-commit, Keeps-propose}

module _ {P : World → Type 0} (wr : Writes P) where
  pub Keeps-customer_of : (k : CaseId) → Keeps P (customer_id_for_case k)
  unfolding customer_id_for_case
  Keeps-customer_of k = search store_rules depth 12

  pub Keeps-conflict :
      (k : CaseId) (r : RefundId) (ks : List CaseId) → Keeps P (report_conflict k r ks)
  unfolding report_conflict
  Keeps-conflict k r ks = search store_rules depth 12

  pub Keeps-reject_pending :
      (c : CustomerId) (k : CaseId) (row : RefundRow) (r : RefundId) (operator reason : String)
      (ks : List CaseId)
      → Keeps P (reject_pending c k row r operator reason ks)
  unfolding reject_pending
  Keeps-reject_pending c k row r operator reason ks = search (store_rules, Keeps-conflict) depth 20

  pub Keeps-reject :
      (r : RefundId) (operator reason : String) → Keeps P (reject_refund r operator reason)
  unfolding reject_refund
  Keeps-reject r operator reason =
      search (store_rules, Keeps-customer_of, Keeps-expire, Keeps-reject_pending) depth 20

  pub Keeps-confirm_found :
      (found : Option VerificationRequestLookup) → Keeps P (confirm_found found)
  unfolding confirm_found
  Keeps-confirm_found none = search store_rules
  Keeps-confirm_found (some found) = search store_rules depth 20

  pub Keeps-confirm : (token : ℕ) → Keeps P (confirm_verification token)
  unfolding confirm_verification
  Keeps-confirm token = search (store_rules, Keeps-confirm_found) depth 12

module _ {P : World → Type 0} (st : Stable P) where
  pub Keeps-approve_pending :
      (c : CustomerId) (k : CaseId) (row : RefundRow) (r : RefundId) (operator : String)
      (ks : List CaseId)
      → Keeps P (approve_pending c k row r operator ks)
  unfolding approve_pending
  Keeps-approve_pending c k row r operator ks =
      search (store_rules, Keeps-commit, Keeps-pay, Keeps-conflict) depth 20

  pub Keeps-approve : (r : RefundId) (operator : String) → Keeps P (approve_refund r operator)
  unfolding approve_refund
  Keeps-approve r operator =
      search (store_rules, Keeps-customer_of, Keeps-expire, Keeps-approve_pending) depth 20

-- They are kept by the two operations that pay.
pub record Acts (P : World → Type 0) : Type 0 where
  pub rolls : Rolls P
  pub sends : Sends P
  pub proposes :
      (row : CaseRow) (k : CaseId) (amount : Decimal)
      → Keeps P (execute_propose_refund row k amount)
  pub approves : (r : RefundId) (operator : String) → Keeps P (approve_refund r operator)

pub Stable-Acts : {P : World → Type 0} → Stable P → Acts P
Stable-Acts st = record {
  rolls = st.rolls;
  sends = st.sends;
  proposes = Keeps-propose st;
  approves = Keeps-approve st;
}

-- They are kept by every request.
pub record Serves (P : World → Type 0) : Type 0 where
  pub acts : Acts P
  pub opens : Opens P

pub Written-Serves : {Q : Database → Type 0} → WritesDatabase Q → Serves (Both Q)
Written-Serves q = record { acts = Stable-Acts (Both-Stable q); opens = Both-Opens q }

module _ {P : World → Type 0} (ac : Acts P) where
  pub Keeps-finalize : (k : CaseId) (v : Verdict) → Keeps P (finalize_propose_refund_verdict k v)
  unfolding finalize_propose_refund_verdict
  Keeps-finalize k allow = search store_rules
  Keeps-finalize k (block (Blocking.deny d)) = search store_rules
  Keeps-finalize k (block (Blocking.require_approval r)) = search store_rules
  Keeps-finalize k (block (Blocking.force_escalate f)) =
      search (store_rules, Keeps-escalate) depth 12

  pub Keeps-refund_action :
      (k : CaseId) (amount : Decimal) → Keeps P (execute_refund_action k amount)
  unfolding execute_refund_action
  Keeps-refund_action k amount = search (store_rules, ac.proposes, Keeps-finalize) depth 20

  pub Keeps-perform :
      (k : CaseId) (row : CaseRow) (ctx : RuleContext) (auth : Authorisation) (a : Action)
      → Keeps P (perform k row ctx auth a)
  unfolding perform
  Keeps-perform k row ctx auth (Action.propose_refund amount) =
      Keeps-allowed ac.sends auth row k _ ctx
  Keeps-perform k row ctx auth Action.get_orders = Keeps-allowed ac.sends auth row k _ ctx
  Keeps-perform k row ctx auth (Action.link_order o) = Keeps-allowed ac.sends auth row k _ ctx
  Keeps-perform k row ctx auth (Action.send_reply s b) = Keeps-allowed ac.sends auth row k _ ctx
  Keeps-perform k row ctx auth Action.request_verification = Keeps-allowed ac.sends auth row k _ ctx
  Keeps-perform k row ctx auth (Action.finish summary) = Keeps-allowed ac.sends auth row k _ ctx
  Keeps-perform k row ctx auth (Action.escalate reason) =
      Keeps-escalate ac.sends k EscalationOrigin.agent (by_capability auth)

  pub Keeps-act_on :
      (k : CaseId) (row : CaseRow) (ctx : RuleContext) (a : Action) (v : Authorised)
      → Keeps P (act_on k row ctx a v)
  unfolding act_on
  Keeps-act_on k row ctx a (blocked (Blocking.deny d)) = search (store_rules, Keeps-denied) depth 12
  Keeps-act_on k row ctx a (blocked (Blocking.force_escalate f)) =
      search (store_rules, Keeps-escalate) depth 12
  Keeps-act_on k row ctx a (blocked (Blocking.require_approval r)) = Keeps-no_approval ac.sends a
  Keeps-act_on k row ctx a (authorised auth) = search (store_rules, Keeps-perform) depth 12

  pub Keeps-ordinary : (k : CaseId) (a : Action) → Keeps P (execute_ordinary_action k a)
  unfolding execute_ordinary_action
  Keeps-ordinary k a = search (store_rules, Keeps-load_rule_context, Keeps-act_on) depth 20

  pub Keeps-act : (k : CaseId) (a : Action) → Keeps P (execute_agent_action k a)
  unfolding execute_agent_action
  Keeps-act k (Action.propose_refund amount) = Keeps-refund_action k amount
  Keeps-act k Action.get_orders = Keeps-ordinary k _
  Keeps-act k (Action.link_order o) = Keeps-ordinary k _
  Keeps-act k (Action.send_reply s b) = Keeps-ordinary k _
  Keeps-act k Action.request_verification = Keeps-ordinary k _
  Keeps-act k (Action.finish summary) = Keeps-ordinary k _
  Keeps-act k (Action.escalate reason) = Keeps-ordinary k _
