-- ===== src/Gate/Payments/Proposal.antt =====
-- gate/refund.py: what a proposed refund pays.
use refundagent.Common.{
  ◌==◌, Option, none, some, filter, length, ◌≡◌, refl, inl, inr, Bool-cases, ap,
}
use refundagent.Common.Int.{ℤ}
use refundagent.Domain.Decimal.{Decimal}
use refundagent.Domain.Enums.{Actor, Channel, RefundStatus}
use refundagent.Domain.Payload.{Payload}
use refundagent.Domain.Result.{Result, ok, err}
use refundagent.Domain.Texts.{CustomerId, CaseId, OrderId}
use refundagent.Gate.Common.{load_rule_context_for_case}
use refundagent.Gate.Keeps.{Keeps-load_rule_context}
use refundagent.Gate.Keeps.Payments.{Keeps-persist, Keeps-race}
use refundagent.Gate.Payments.{Accounted, Accounts, Accounts-bind, IsQuiet, commit_and_pay}
use refundagent.Gate.Refund.{
  RefundKey, Clearance, Proposal, append_refund_event, binding_of, append_open_refund_race_denial,
  settle_proposal, insert_proposal, follow_verdict, persist_refund_proposal, deny_race,
  conclude_proposal, commit, execute_propose_refund,
}
use refundagent.Policy.Evaluate.{Authorised, authorised, blocked}
use refundagent.Policy.Verdicts.{Blocking}
use refundagent.Projection.Types.{StoredEvent}
use refundagent.Store.Append.Effect.{Effect, append-Effect}
use refundagent.Store.Keeps.{Keeps-on_integrity_error, Keeps-in_savepoint}
use refundagent.Store.Keeps.Stable.{quiet}
use refundagent.Store.Rows.{CaseRow}
use refundagent.Store.Session.{
  Tx, World, Outside, pure, ◌>>=◌, ◌>>◌, after, in_savepoint, on_integrity_error,
}
use refundagent.Store.Transitions.{
  transition_refund_status, transition_permitted, allowed_refund_status_targets, selected,
  update_refunds, update_rows,
}
use refundagent.Gate.Backing.{IsBacked, approved-IsBacked}
use refundagent.Gate.Payments.Clears.{
  Cleared, Clears, Clears-bind, Clears-waiting, Clears-in_savepoint, Clears-on_integrity_error,
  clear_rules,
}

module _ (key : RefundKey) (amount : ℤ) where
  Cleared-event :
      (a : Actor) (ch : Channel) (p : Payload) (w : World) (out : Result StoredEvent × World)
      → IsBacked (record { idempotency_key = key.refund_id; amount = amount }) w.db
      → Effect key.customer_id (some key.case_id) (some key.order_id) a ch p w out
      → Cleared
          (after (λ _. pure (Proposal.auto_approved key amount)) out.0 out.1).0
          (after (λ _. pure (Proposal.auto_approved key amount)) out.0 out.1).1.db
  unfolding pure
  Cleared-event a ch p w (err x, w') h same = tt
  Cleared-event a ch p w (ok e, w') h (_, same, _, _, _) = rw same h

  event_and_return :
      (a : Actor) (ch : Channel) (p : Payload) (w : World)
      → IsBacked (record { idempotency_key = key.refund_id; amount = amount }) w.db
      → Cleared
          ((append_refund_event key a ch p >> pure (Proposal.auto_approved key amount)) w).0
          ((append_refund_event key a ch p >> pure (Proposal.auto_approved key amount)) w).1.db
  unfolding append_refund_event ◌>>=◌
  event_and_return a ch p w h =
      Cleared-event a ch p w _ h
        (append-Effect key.customer_id (some key.case_id) (some key.order_id) a ch p w)

  Clears-settle : (how : Clearance) → Clears (settle_proposal key amount how)
  unfolding settle_proposal transition_refund_status transition_permitted
      allowed_refund_status_targets update_refunds append_refund_event ◌>>=◌
  Clears-settle (Clearance.by_operator r) = record {
    at = λ w.
        (Clears-bind
            (append_refund_event key Actor.system Channel.internal
              (Payload.refund_approval_required key.refund_id amount r.rule))
            _ (λ _. Clears-waiting r)).at
          w;
  }
  Clears-settle Clearance.by_capability = record {
    at = λ w.
        elim (Bool-cases (
          length (
            filter
              (selected key.refund_id RefundStatus.pending_approval (some (binding_of key amount)))
              w.db.refunds)
          == 1)) [
            | inr none_or_more ↦ rw none_or_more tt
            | inl one ↦ rw one (
                event_and_return Actor.system Channel.internal
                  (Payload.refund_auto_approved key.refund_id)
                  (record w {
                    db = record w.db {
                      refunds =
                          update_rows
                            (selected key.refund_id RefundStatus.pending_approval
                              (some (binding_of key amount)))
                            RefundStatus.approved w.db.refunds;
                    };
                  })
                  (approved-IsBacked key.refund_id (binding_of key amount) w.db.refunds one))
          ];
  }

Clears-insert :
    (c : CustomerId) (k : CaseId) (o : OrderId) (amount : Decimal) (how : Clearance)
    → Clears (insert_proposal c k o amount how)
unfolding insert_proposal
Clears-insert c k o amount how = search (clear_rules, Clears-settle) depth 20

Clears-follow :
    (c : CustomerId) (k : CaseId) (amount : Decimal) (o : Option OrderId) (v : Authorised)
    → Clears (follow_verdict c k amount o v)
unfolding follow_verdict
Clears-follow c k amount o (blocked (Blocking.deny d)) = search clear_rules
Clears-follow c k amount o (blocked (Blocking.force_escalate f)) = search clear_rules
Clears-follow c k amount o (blocked (Blocking.require_approval r)) =
    search (clear_rules, Clears-insert) depth 12
Clears-follow c k amount o (authorised auth) = search (clear_rules, Clears-insert) depth 12

Clears-persist :
    (c : CustomerId) (k : CaseId) (amount : Decimal) → Clears (persist_refund_proposal c k amount)
unfolding persist_refund_proposal
Clears-persist c k amount = search (clear_rules, Clears-follow) depth 12

Clears-race :
    (c : CustomerId) (k : CaseId) (amount : Decimal) (o : Option OrderId)
    → Clears (deny_race c k amount o)
unfolding deny_race append_open_refund_race_denial
Clears-race c k amount none = search clear_rules
Clears-race c k amount (some o) = search clear_rules depth 12

Accounted-conclude :
    (p : Proposal) (w : World)
    → Cleared (ok p) w.db
    → Accounted w.outside.calls (conclude_proposal p w).1
unfolding conclude_proposal commit ◌>>=◌
Accounted-conclude (Proposal.no_refund b) w h = inl refl
Accounted-conclude (Proposal.waiting r) w h = inl refl
Accounted-conclude (Proposal.auto_approved key amount) w h = commit_and_pay key amount _ w h

concluded :
    (o : Outside) (r : Result Proposal) (w : World)
    → w.outside ≡ o
    → Cleared r w.db
    → Accounted o.calls (after conclude_proposal r w).1
concluded o (err e) w same h = inl (ap (λ x. x.calls) same)
concluded o (ok p) w same h = rw (← same) (Accounted-conclude p w h)

Accounts-conclude : (m : Tx Proposal) → IsQuiet m → Clears m → Accounts (m >>= conclude_proposal)
unfolding ◌>>=◌
Accounts-conclude m q cm = record {
  at = λ w. let (r, w') = m w in concluded w.outside r w' ((q w.outside).at w refl) (cm.at w);
}

module _ (c : CustomerId) (k : CaseId) (amount : Decimal) where
  -- The proposal's savepoint, with the denial of a race.
  abbrev attempt : Option OrderId → Tx Proposal
  attempt o =
      on_integrity_error (in_savepoint (persist_refund_proposal c k amount))
        (deny_race c k amount o)

  attempt-IsQuiet : (o : Option OrderId) → IsQuiet (attempt o)
  attempt-IsQuiet o before =
      Keeps-on_integrity_error _ _
        (Keeps-in_savepoint (quiet before).frames _ (λ x. Keeps-persist (quiet x) c k amount)
          (Keeps-persist (quiet before) c k amount))
        (Keeps-race (quiet before) c k amount o)

  Clears-attempt : (o : Option OrderId) → Clears (attempt o)
  Clears-attempt o =
      Clears-on_integrity_error _ _ (Clears-in_savepoint _ (Clears-persist c k amount))
        (Clears-race c k amount o)

context-IsQuiet : (k : CaseId) → IsQuiet (load_rule_context_for_case k)
context-IsQuiet k o = Keeps-load_rule_context (quiet o) k

-- A proposed refund makes no call of the payment provider, or one, and then the refund with the
-- call's key is approved or executed for the call's amount, in the session's database and as
-- committed; this holds whether the proposal returns or raises.
pub Accounts-propose :
    (row : CaseRow) (k : CaseId) (amount : Decimal) → Accounts (execute_propose_refund row k amount)
unfolding execute_propose_refund
Accounts-propose row k amount = Accounts-bind _ _ (context-IsQuiet k) (λ loaded.
    Accounts-conclude _ (attempt-IsQuiet row.customer_id k amount _)
      (Clears-attempt row.customer_id k amount _))
