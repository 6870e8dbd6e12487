-- ===== src/Gate/Progress/Proposals.antt =====
-- gate/refund.py and the end of gate/operations.py: an agent's action that returns adds an agent step
-- to the case's log, a proposed refund too.
use refundagent.Common.{ℕ, ◌+◌, Option, none, some, refl}
use refundagent.Common.Int.{ℤ}
use refundagent.Actions.{Action}
use refundagent.Domain.Decimal.{Decimal}
use refundagent.Domain.Texts.{OrderId, RefundId}
use refundagent.Gate.Keeps.{Keeps-load_rule_context}
use refundagent.Gate.Keeps.Payments.{Keeps-executed, Keeps-insert, Keeps-event}
use refundagent.Gate.Operations.{
  by_force, finalize_propose_refund_verdict, execute_refund_action, execute_agent_action,
}
use refundagent.Gate.Progress.{HasSteps-Sends}
use refundagent.Gate.Progress.Actions.{
  At, Steps, Steps-append, Steps-denied, Steps-escalate_policy, Returns-found, Steps-ordinary,
  Steps-then_pure,
}
use refundagent.Gate.Refund.{
  RefundKey, Clearance, Proposal, refund_key, append_refund_event, append_refund_proposed,
  execute_payment_after_committed_intent, settle_proposal, insert_proposal, follow_verdict,
  persist_refund_proposal, append_open_refund_race_denial, deny_race, conclude_proposal, commit,
  execute_propose_refund,
}
use refundagent.Policy.Checks.Predicates.{open_refund_deny}
use refundagent.Policy.Evaluate.{Authorised, authorised, blocked}
use refundagent.Policy.Verdicts.{Verdict, allow, block, Blocking}
use refundagent.Projection.Case.{counts_as_agent_step}
use refundagent.Store.Adapters.{payment_refund}
use refundagent.Store.Keeps.{Keeps, keeps_rules}
use refundagent.Store.Keeps.Rules.{store_rules}
use refundagent.Store.Returns.{
  Returns, Returns-keep, Returns-pure, Returns-raise, Returns-bind, Returns-after, Returns-if,
  Returns-in_transaction, Returns-attempt,
}
use refundagent.Store.Rows.{CaseRow}
use refundagent.Store.Session.{Tx, ◌>>=◌}

-- A forced escalation is still to come when the proposal or its verdict is returned; what else is
-- returned has had its step.
abbrev blocking_steps : ℕ → Blocking → ℕ
blocking_steps n (Blocking.force_escalate f) = n
blocking_steps n b = 1 + n

abbrev proposal_steps : ℕ → Proposal → ℕ
proposal_steps n (Proposal.no_refund b) = blocking_steps n b
proposal_steps n p = 1 + n

abbrev verdict_steps : ℕ → Verdict → ℕ
verdict_steps n allow = 1 + n
verdict_steps n (block b) = blocking_steps n b

module _ (row : CaseRow) (n : ℕ) where
  abbrev Proposes : Tx Proposal → Type 0
  Proposes m = Returns (At row n) (λ p. At row (proposal_steps n p)) m

  Proposes-settle :
      (key : RefundKey) (amount : ℤ) (how : Clearance)
      → Returns (At row (1 + n)) (λ p. At row (proposal_steps n p)) (settle_proposal key amount how)
  unfolding settle_proposal
  Proposes-settle key amount Clearance.by_capability =
      Returns-after _ _ (search (store_rules, HasSteps-Sends row (1 + n))) (λ changed.
        Returns-after _ _ (search keeps_rules) (λ _.
          Returns-after _ _ (search (Keeps-event, store_rules, HasSteps-Sends row (1 + n)))
            (λ e. Returns-pure _ (λ w h. h))))
  Proposes-settle key amount (Clearance.by_operator r) =
      Returns-after _ _ (search (Keeps-event, store_rules, HasSteps-Sends row (1 + n)))
        (λ e. Returns-pure _ (λ w h. h))

  Steps-proposed :
      (o : OrderId) (r : RefundId) (amount : ℤ)
      → Steps row n (append_refund_proposed (refund_key row.customer_id row.id o r) amount)
  unfolding append_refund_event counts_as_agent_step
  Steps-proposed o r amount = Steps-append row n (some o) _ _ _ refl

  Proposes-rest :
      (o : OrderId) (r : RefundId) (amount : ℤ) (how : Clearance)
      → Proposes (
          append_refund_proposed (refund_key row.customer_id row.id o r) amount >>= λ _.
          settle_proposal (refund_key row.customer_id row.id o r) amount how)
  Proposes-rest o r amount how =
      Returns-bind _ _ _ (Steps-proposed o r amount) (λ e. Proposes-settle _ amount how)

  Proposes-insert :
      (o : OrderId) (amount : Decimal) (how : Clearance)
      → Proposes (insert_proposal row.customer_id row.id o amount how)
  unfolding insert_proposal
  Proposes-insert o amount how = Returns-after _ _ (search keeps_rules) (λ cents.
      Returns-after _ _ (search (store_rules, HasSteps-Sends row n)) (λ r.
        Returns-after _ _ (search (store_rules, HasSteps-Sends row n)) (λ at.
          Returns-after _ _ (search store_rules) (λ owner.
            Returns-after _ _ (search keeps_rules) (λ _.
              Returns-after _ _ (search (store_rules, Keeps-insert, HasSteps-Sends row n))
                (λ _. Proposes-rest o r cents how))))))

  Proposes-follow :
      (amount : Decimal) (o : Option OrderId) (v : Authorised)
      → Proposes (follow_verdict row.customer_id row.id amount o v)
  unfolding follow_verdict
  Proposes-follow amount o (blocked (Blocking.deny d)) =
      Returns-bind _ _ _ (Steps-denied row n (Action.propose_refund amount) d)
        (λ e. Returns-pure _ (λ w h. h))
  Proposes-follow amount o (blocked (Blocking.force_escalate f)) = Returns-pure _ (λ w h. h)
  Proposes-follow amount o (blocked (Blocking.require_approval r)) =
      search (keeps_rules, Returns-after, Proposes-insert) depth 12
  Proposes-follow amount o (authorised auth) =
      search (keeps_rules, Returns-after, Proposes-insert) depth 12

  Proposes-persist :
      (amount : Decimal) → Proposes (persist_refund_proposal row.customer_id row.id amount)
  unfolding persist_refund_proposal
  Proposes-persist amount =
      search
        (store_rules, HasSteps-Sends row n, Returns-after, Keeps-load_rule_context, Proposes-follow)
        depth 20

  Proposes-race_denial :
      (amount : Decimal) → Proposes (append_open_refund_race_denial row.customer_id row.id amount)
  unfolding append_open_refund_race_denial
  Proposes-race_denial amount =
      Returns-bind _ _ _ (Steps-denied row n (Action.propose_refund amount) open_refund_deny)
        (λ e. Returns-pure _ (λ w h. h))

  Proposes-race :
      (amount : Decimal) (o : Option OrderId) → Proposes (deny_race row.customer_id row.id amount o)
  unfolding deny_race
  Proposes-race amount none = Returns-raise _
  Proposes-race amount (some o) =
      search (keeps_rules, Returns-after, Returns-if, Returns-raise, Proposes-race_denial) depth 20

module _ (row : CaseRow) (s : ℕ) where
  Keeps-charge : (r : RefundId) (amount : ℤ) → Keeps (At row s) (payment_refund r amount)
  unfolding payment_refund
  Keeps-charge r amount = record { at = λ w h. h }

  Returns-pay :
      (key : RefundKey) (amount : ℤ)
      → Returns (At row s) (λ _. At row s) (execute_payment_after_committed_intent key amount)
  unfolding execute_payment_after_committed_intent
  Returns-pay key amount = Returns-after _ _ (Keeps-charge key.refund_id amount) (λ ref.
      Returns-in_transaction (λ a w h. h) _
        (Returns-keep _ (search (store_rules, Keeps-executed, HasSteps-Sends row s))))

  Returns-commit : Returns (At row s) (λ _. At row s) commit
  unfolding commit
  Returns-commit = record { at = λ w a h returned. h }

module _ (row : CaseRow) (n : ℕ) where
  Returns-conclude :
      (p : Proposal)
      → Returns
          (At row (proposal_steps n p))
          (λ v. At row (verdict_steps n v))
          (conclude_proposal p)
  unfolding conclude_proposal
  Returns-conclude (Proposal.no_refund b) = Returns-pure _ (λ w h. h)
  Returns-conclude (Proposal.waiting r) =
      Returns-bind _ _ _ (Returns-commit row (1 + n)) (λ _. Returns-pure _ (λ w h. h))
  Returns-conclude (Proposal.auto_approved key amount) =
      Returns-bind _ _ _ (Returns-commit row (1 + n)) (λ _.
        Returns-bind _ _ _ (Returns-pay row (1 + n) key amount) (λ e. Returns-pure _ (λ w h. h)))

  Returns-propose :
      (amount : Decimal)
      → Returns
          (At row n)
          (λ v. At row (verdict_steps n v))
          (execute_propose_refund row row.id amount)
  unfolding execute_propose_refund
  Returns-propose amount =
      Returns-after _ _ (search (store_rules, Keeps-load_rule_context, HasSteps-Sends row n))
        (λ loaded.
          Returns-bind _ _ _
            (Returns-attempt (λ v w h. h) _ _ (Proposes-persist row n amount)
              (Proposes-race row n amount _))
            (λ p. Returns-conclude p))

  Steps-finalize :
      (v : Verdict)
      → Returns
          (At row (verdict_steps n v))
          (λ _. At row (1 + n))
          (finalize_propose_refund_verdict row.id v)
  unfolding finalize_propose_refund_verdict
  Steps-finalize allow = Returns-pure _ (λ w h. h)
  Steps-finalize (block (Blocking.deny d)) = Returns-pure _ (λ w h. h)
  Steps-finalize (block (Blocking.require_approval r)) = Returns-pure _ (λ w h. h)
  Steps-finalize (block (Blocking.force_escalate f)) =
      Steps-then_pure row n _ _ (Steps-escalate_policy row n (by_force f))

  Steps-refund_action : (amount : Decimal) → Steps row n (execute_refund_action row.id amount)
  unfolding execute_refund_action
  Steps-refund_action amount =
      Returns-found row n _ (Returns-bind _ _ _ (Returns-propose amount) (λ v. Steps-finalize v))

  pub Steps-act : (a : Action) → Steps row n (execute_agent_action row.id a)
  unfolding execute_agent_action
  Steps-act (Action.propose_refund amount) = Steps-refund_action amount
  Steps-act Action.get_orders = Steps-ordinary row n _
  Steps-act (Action.link_order o) = Steps-ordinary row n _
  Steps-act (Action.send_reply s b) = Steps-ordinary row n _
  Steps-act Action.request_verification = Steps-ordinary row n _
  Steps-act (Action.finish summary) = Steps-ordinary row n _
  Steps-act (Action.escalate reason) = Steps-ordinary row n _
