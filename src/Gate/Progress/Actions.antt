-- ===== src/Gate/Progress/Actions.antt =====
-- gate/operations.py and gate/effects.py: an action of the agent that returns adds an agent step to
-- the case's log.
use refundagent.Common.{ℕ, ◌+◌, true, Option, none, some, ◌≡◌, refl}
use refundagent.Actions.{Action, OrderRef}
use refundagent.Domain.Enums.{Actor, Channel, EscalationOrigin}
use refundagent.Domain.Payload.{Payload}
use refundagent.Domain.Result.{Result, ok, err, case_not_found}
use refundagent.Domain.Texts.{OrderId, Text}
use refundagent.Gate.Common.{
  append_action_denied, append_escalated_and_case_closed, load_rule_context_for_case,
}
use refundagent.Gate.Effects.{
  dispatch_allow_verdict, allow_get_orders, allow_link_order, allow_send_reply,
  allow_request_verification, allow_finish, dispatch_require_approval_verdict,
}
use refundagent.Gate.Operations.{
  Evidence, by_capability, by_force, escalate_case, perform, act_on, execute_ordinary_action,
}
use refundagent.Gate.Progress.{HasSteps, HasSteps-step, HasSteps-Sends}
use refundagent.Policy.Authorisation.{Authorisation}
use refundagent.Policy.Evaluate.{Authorised, authorised, blocked}
use refundagent.Policy.Verdicts.{Blocking, Deny, RuleContext}
use refundagent.Projection.Case.{counts_as_agent_step}
use refundagent.Projection.Types.{StoredEvent}
use refundagent.Store.Append.{append_canonical_event}
use refundagent.Store.Append.Effect.{Effect, append-Effect}
use refundagent.Store.Keeps.{keeps_rules}
use refundagent.Store.Keeps.Rules.{store_rules}
use refundagent.Store.Queries.{find_case}
use refundagent.Store.Returns.{
  Returns, Returns-keep, Returns-given, Returns-pure, Returns-raise, Returns-bind, Returns-after,
  Returns-gets, Returns-require, Returns-lift,
}
use refundagent.Store.Rows.{CaseRow}
use refundagent.Store.Session.{Tx, World, pure, gets, require, ◌>>=◌}

-- The log shows `n` agent steps of the case at least.
abbrev pub At : CaseRow → ℕ → World → Type 0
At row n w = HasSteps row n w.db

-- A return adds an agent step.
abbrev pub Steps : {A : Type 0} → CaseRow → ℕ → Tx A → Type 0
Steps row n m = Returns (At row n) (λ _. At row (1 + n)) m

module _ (row : CaseRow) (n : ℕ) where
  added :
      (o : Option OrderId) (a : Actor) (ch : Channel) (p : Payload) (w : World)
      (out : Result StoredEvent × World) (e : StoredEvent)
      → counts_as_agent_step p ≡ true
      → HasSteps row n w.db
      → Effect row.customer_id (some row.id) o a ch p w out
      → out.0 ≡ ok e
      → HasSteps row (1 + n) out.1.db
  added o a ch p w (err x, w') e counts h same returned = cc
  added o a ch p w (ok x, w') e counts h (_, same, _, _, _) returned =
      rw same (HasSteps-step row n o a ch p (w.clock w.ticks) w.next_id w.db counts h)

  -- The case's own event of an agent's step.
  pub Steps-append :
      (o : Option OrderId) (a : Actor) (ch : Channel) (p : Payload)
      → counts_as_agent_step p ≡ true
      → Steps row n (append_canonical_event row.customer_id (some row.id) o a ch p)
  Steps-append o a ch p counts = record {
    at = λ w e h returned.
        added o a ch p w _ e counts h (append-Effect row.customer_id (some row.id) o a ch p w)
          returned;
  }

  -- The lookup of the case finds its row.
  pub Returns-found :
      {A : Type 0} {Q : A → World → Type 0} (f : CaseRow → Tx A)
      → Returns (At row n) Q (f row)
      → Returns
          (At row n)
          Q
          (gets (λ w. find_case row.id w.db) >>= λ found. require found case_not_found >>= f)
  unfolding ◌>>=◌
  Returns-found f y = record { at = λ w a h returned. rw h.1 (y.at w a h (rw h.1 at returned)) }

  pub Steps-denied :
      (a : Action) (d : Deny) → Steps row n (append_action_denied row.customer_id row.id a d)
  unfolding append_action_denied counts_as_agent_step
  Steps-denied a d = Steps-append none _ _ _ refl

  -- The agent's or the policy's escalation.
  Steps-closed :
      (origin : EscalationOrigin) (reason : Text) (ticket : ℕ)
      → counts_as_agent_step (Payload.escalated reason origin ticket) ≡ true
      → Steps row n (append_escalated_and_case_closed row.customer_id row.id origin reason ticket)
  unfolding append_escalated_and_case_closed
  Steps-closed origin reason ticket counts =
      Returns-bind (λ _. At row (1 + n)) _ _ (Steps-append none _ _ _ counts)
        (λ e. Returns-keep _ (search (store_rules, HasSteps-Sends row (1 + n))))

  Steps-escalate :
      (origin : EscalationOrigin) (e : Evidence)
      → ((reason : Text) (ticket : ℕ)
          → counts_as_agent_step (Payload.escalated reason origin ticket) ≡ true)
      → Steps row n (escalate_case row.id origin e)
  unfolding escalate_case
  Steps-escalate origin e counts = Returns-found _ (
      Returns-after _ _ (search keeps_rules) (λ reason.
        Returns-after _ _ (search (store_rules, HasSteps-Sends row n))
          (λ ticket. Steps-closed origin reason ticket (counts reason ticket))))

  pub Steps-escalate_agent :
      (e : Evidence) → Steps row n (escalate_case row.id EscalationOrigin.agent e)
  unfolding counts_as_agent_step
  Steps-escalate_agent e = Steps-escalate EscalationOrigin.agent e (λ reason ticket. refl)

  pub Steps-escalate_policy :
      (e : Evidence) → Steps row n (escalate_case row.id EscalationOrigin.policy e)
  unfolding counts_as_agent_step
  Steps-escalate_policy e = Steps-escalate EscalationOrigin.policy e (λ reason ticket. refl)

pub ruleset steps_rules = (
  store_rules, Returns-after, Returns-raise, Steps-append, Steps-denied, Steps-escalate_agent,
  Steps-escalate_policy,
)

module _ (row : CaseRow) (n : ℕ) where
  -- The effects of the allowed actions.
  Steps-allowed :
      (auth : Authorisation) (a : Action) (ctx : RuleContext)
      → Steps row n (dispatch_allow_verdict auth row row.id a ctx)
  unfolding dispatch_allow_verdict allow_get_orders allow_link_order allow_send_reply
      allow_request_verification allow_finish counts_as_agent_step
  Steps-allowed auth (Action.propose_refund amount) ctx = search steps_rules
  Steps-allowed auth Action.get_orders ctx = search steps_rules depth 20
  Steps-allowed auth (Action.link_order (OrderRef.named o)) ctx = search steps_rules depth 20
  Steps-allowed auth (Action.link_order (OrderRef.unnamed s)) ctx = search steps_rules depth 20
  Steps-allowed auth (Action.send_reply subject body) ctx =
      search (steps_rules, HasSteps-Sends row n) depth 20
  Steps-allowed auth Action.request_verification ctx =
      search (steps_rules, HasSteps-Sends row n) depth 20
  Steps-allowed auth (Action.finish summary) ctx = search steps_rules depth 20
  Steps-allowed auth (Action.escalate reason) ctx = search steps_rules

  -- No ordinary action may wait for an operator.
  Steps-no_approval : (a : Action) → Steps row n (dispatch_require_approval_verdict a)
  unfolding dispatch_require_approval_verdict
  Steps-no_approval (Action.propose_refund amount) = search steps_rules
  Steps-no_approval Action.get_orders = search steps_rules
  Steps-no_approval (Action.link_order o) = search steps_rules
  Steps-no_approval (Action.send_reply subject body) = search steps_rules
  Steps-no_approval Action.request_verification = search steps_rules
  Steps-no_approval (Action.finish summary) = search steps_rules
  Steps-no_approval (Action.escalate reason) = search steps_rules

  -- What a step has returned changes nothing.
  pub Steps-then_pure :
      {A B : Type 0} (m : Tx A) (b : B) → Steps row n m → Steps row n (m >>= λ _. pure b)
  Steps-then_pure m b s = Returns-bind (λ _. At row (1 + n)) m _ s (λ a. Returns-pure b (λ w h. h))

  Steps-perform :
      (ctx : RuleContext) (auth : Authorisation) (a : Action)
      → Steps row n (perform row.id row ctx auth a)
  unfolding perform
  Steps-perform ctx auth (Action.propose_refund amount) = Steps-allowed auth _ ctx
  Steps-perform ctx auth Action.get_orders = Steps-allowed auth _ ctx
  Steps-perform ctx auth (Action.link_order o) = Steps-allowed auth _ ctx
  Steps-perform ctx auth (Action.send_reply s b) = Steps-allowed auth _ ctx
  Steps-perform ctx auth Action.request_verification = Steps-allowed auth _ ctx
  Steps-perform ctx auth (Action.finish summary) = Steps-allowed auth _ ctx
  Steps-perform ctx auth (Action.escalate reason) = Steps-escalate_agent row n (by_capability auth)

  Steps-act_on :
      (ctx : RuleContext) (a : Action) (v : Authorised) → Steps row n (act_on row.id row ctx a v)
  unfolding act_on
  Steps-act_on ctx a (blocked (Blocking.deny d)) = Steps-then_pure _ _ (Steps-denied row n a d)
  Steps-act_on ctx a (blocked (Blocking.force_escalate f)) =
      Steps-then_pure _ _ (Steps-escalate_policy row n (by_force f))
  Steps-act_on ctx a (blocked (Blocking.require_approval r)) = Steps-no_approval a
  Steps-act_on ctx a (authorised auth) = Steps-then_pure _ _ (Steps-perform ctx auth a)

  loaded_pair :
      (ctx : RuleContext)
      → Returns
          (At row n)
          (λ (loaded : CaseRow × RuleContext) w. At row n w × (loaded.0 ≡ row))
          (pure (row, ctx))
  loaded_pair ctx = Returns-pure _ (λ w h. (h, refl))

  -- The context of policy comes with the case's row.
  pub Returns-load_rule_context :
      Returns
        (At row n)
        (λ (loaded : CaseRow × RuleContext) w. At row n w × (loaded.0 ≡ row))
        (load_rule_context_for_case row.id)
  unfolding load_rule_context_for_case
  Returns-load_rule_context =
      Returns-found row n _
        (search (keeps_rules, HasSteps-Sends row n, Returns-after, loaded_pair) depth 20)

  pub Steps-ordinary : (a : Action) → Steps row n (execute_ordinary_action row.id a)
  unfolding execute_ordinary_action
  Steps-ordinary a = Returns-bind _ _ _ Returns-load_rule_context (λ loaded.
      Returns-given (loaded.0 ≡ row) _ _
        (λ same. Returns-after _ _ (search keeps_rules) (λ v. rw same (Steps-act_on loaded.1 a v))))
