-- ===== src/Gate/Keeps/Payments.antt =====
-- A proposed refund, from the verdict under the lock to the payment, keeps what every guarded write
-- keeps.
use refundagent.Common.{ℕ, ◌||◌, Option, none, some, any, ◌≡◌, inl, inr, arith, Bool-cases, ◌==◌}
use refundagent.Common.Int.{ℤ}
use refundagent.Domain.Decimal.{Decimal}
use refundagent.Domain.Enums.{Actor, Channel, RefundStatus}
use refundagent.Domain.Payload.{Payload}
use refundagent.Domain.Texts.{CustomerId, CaseId, OrderId}
use refundagent.Gate.Refund.{
  RefundKey, Clearance, Proposal, append_refund_event, record_refund_executed_after_payment,
  execute_payment_after_committed_intent, insert_refund, settle_proposal, insert_proposal,
  follow_verdict, persist_refund_proposal, append_open_refund_race_denial, deny_race, commit,
  conclude_proposal, execute_propose_refund,
}
use refundagent.Policy.Evaluate.{Authorised, authorised, blocked}
use refundagent.Policy.Verdicts.{Blocking}
use refundagent.Store.Keeps.{Keeps}
use refundagent.Store.Keeps.Stable.{Writes, Stable}
use refundagent.Store.Keeps.Rules.{store_rules}
use refundagent.Store.Queries.{live_on}
use refundagent.Store.Rows.{CaseRow, RefundRow}
use refundagent.Store.Session.{World}
use refundagent.Gate.Keeps.{Keeps-load_rule_context, Keeps-denied}

module _ {P : World → Type 0} (wr : Writes P) where
  pub Keeps-event :
      (key : RefundKey) (a : Actor) (ch : Channel) (p : Payload)
      → Keeps P (append_refund_event key a ch p)
  unfolding append_refund_event
  Keeps-event key a ch p = search store_rules

  pub Keeps-executed :
      (key : RefundKey) (amount : ℤ) (ref : ℕ)
      → Keeps P (record_refund_executed_after_payment key amount ref)
  unfolding record_refund_executed_after_payment
  Keeps-executed key amount ref = search (store_rules, Keeps-event) depth 20

  pub Keeps-insert :
      (row : RefundRow) → row.status ≡ RefundStatus.pending_approval → Keeps P (insert_refund row)
  unfolding insert_refund
  Keeps-insert row pending = record {
    at = λ w h.
        elim (Bool-cases
          (any (λ r. r.id == row.id) w.db.refunds || any (live_on row.order_id) w.db.refunds)) [
            | inl taken ↦ rw taken h
            | inr free ↦
                rw free (wr.on_refund row w pending (ground (arith, free)) (ground (arith, free)) h)
          ];
  }

  pub Keeps-settle :
      (key : RefundKey) (amount : ℤ) (how : Clearance) → Keeps P (settle_proposal key amount how)
  unfolding settle_proposal
  Keeps-settle key amount Clearance.by_capability = search (store_rules, Keeps-event) depth 20
  Keeps-settle key amount (Clearance.by_operator r) = search (store_rules, Keeps-event) depth 20

  pub Keeps-insert_proposal :
      (c : CustomerId) (k : CaseId) (o : OrderId) (amount : Decimal) (how : Clearance)
      → Keeps P (insert_proposal c k o amount how)
  unfolding insert_proposal
  Keeps-insert_proposal c k o amount how =
      search (store_rules, Keeps-event, Keeps-insert, Keeps-settle) depth 40

  pub Keeps-follow :
      (c : CustomerId) (k : CaseId) (amount : Decimal) (o : Option OrderId) (v : Authorised)
      → Keeps P (follow_verdict c k amount o v)
  unfolding follow_verdict
  Keeps-follow c k amount o (blocked (Blocking.deny d)) = search (store_rules, Keeps-denied)
  Keeps-follow c k amount o (blocked (Blocking.force_escalate f)) = search store_rules
  Keeps-follow c k amount o (blocked (Blocking.require_approval r)) =
      search (store_rules, Keeps-insert_proposal) depth 12
  Keeps-follow c k amount o (authorised auth) = search (store_rules, Keeps-insert_proposal) depth 12

  pub Keeps-persist :
      (c : CustomerId) (k : CaseId) (amount : Decimal)
      → Keeps P (persist_refund_proposal c k amount)
  unfolding persist_refund_proposal
  Keeps-persist c k amount = search (store_rules, Keeps-load_rule_context, Keeps-follow) depth 20

  pub Keeps-race :
      (c : CustomerId) (k : CaseId) (amount : Decimal) (o : Option OrderId)
      → Keeps P (deny_race c k amount o)
  unfolding deny_race append_open_refund_race_denial
  Keeps-race c k amount none = search store_rules
  Keeps-race c k amount (some o) = search store_rules depth 20

  pub Keeps-commit : Keeps P commit
  unfolding commit
  Keeps-commit = record { at = λ w h. wr.frames.on_commit w h }

module _ {P : World → Type 0} (st : Stable P) where
  pub Keeps-pay :
      (key : RefundKey) (amount : ℤ) → Keeps P (execute_payment_after_committed_intent key amount)
  unfolding execute_payment_after_committed_intent
  Keeps-pay key amount = search (store_rules, Keeps-executed) depth 20

  pub Keeps-conclude : (p : Proposal) → Keeps P (conclude_proposal p)
  unfolding conclude_proposal
  Keeps-conclude (Proposal.no_refund b) = search store_rules
  Keeps-conclude (Proposal.waiting r) = search (store_rules, Keeps-commit)
  Keeps-conclude (Proposal.auto_approved key amount) =
      search (store_rules, Keeps-commit, Keeps-pay) depth 12

  pub Keeps-propose :
      (row : CaseRow) (k : CaseId) (amount : Decimal)
      → Keeps P (execute_propose_refund row k amount)
  unfolding execute_propose_refund
  Keeps-propose row k amount =
      search (store_rules, Keeps-load_rule_context, Keeps-persist, Keeps-race, Keeps-conclude) depth
        20
