-- ===== src/Api/Keeps/Routes.antt =====
-- The routes keep what every guarded write keeps.
use refundagent.Common.{
  ℕ, String, true, Option, none, some, List, any, inl, inr, Bool-cases, ◌&&◌, ◌||◌, ◌==◌,
}
use refundagent.Agent.Boundary.{Environment}
use refundagent.Api.Keeps.{Keeps-queue}
use refundagent.Api.Queue.{case_is_open}
use refundagent.Api.Routes.{
  InboundEmail, insert_case, create_case_for_inbound_email, raced_case, resolve_found,
  resolve_inbound_case, receive_from, drain, post_inbound_email, resume_after,
  post_operator_approve, post_operator_reject, answer_confirmation, post_verification_confirm,
  get_operator_pending,
}
use refundagent.Domain.Texts.{CustomerId, CaseId, RefundId}
use refundagent.Gate.Keeps.{Keeps-expire}
use refundagent.Gate.Keeps.Operations.{Acts, Serves, Keeps-reject, Keeps-confirm}
use refundagent.Gate.Operations.{send_unknown_sender_reply}
use refundagent.Gate.Operator.{OperatorOutcome}
use refundagent.Gate.Verification.{VerificationOutcome}
use refundagent.Store.Keeps.{
  Keeps, Keeps-on_integrity_error, Keeps-in_savepoint, Keeps-bind, Keeps-pure, Keeps-from_state,
}
use refundagent.Store.Keeps.Stable.{Writes, Opens, quiet, quiet_Opens}
use refundagent.Store.Keeps.Rules.{store_rules}
use refundagent.Store.Rows.{CaseRow, CustomerRow}
use refundagent.Store.Session.{World}
use text.Mathlib.Text.{◌==◌ as str_eq}

module _ {P : World → Type 0} (wr : Writes P) (op : Opens P) where
  Keeps-insert_case : (row : CaseRow) → Keeps P (insert_case row)
  unfolding insert_case
  Keeps-insert_case row = record {
    at = λ w h.
        elim (Bool-cases (
          any
            (λ r.
              r.id == row.id
              || (r.customer_id == row.customer_id
                  && str_eq r.opening_message_id row.opening_message_id))
            w.db.cases)) [ inl taken ↦ rw taken h | inr free ↦ rw free (op.on_case row w h) ];
  }

  Keeps-create :
      (c : CustomerId) (mail : InboundEmail) → Keeps P (create_case_for_inbound_email c mail)
  unfolding create_case_for_inbound_email
  Keeps-create c mail = search (store_rules, Keeps-insert_case) depth 30

module _ {P : World → Type 0} (wr : Writes P) where
  Keeps-is_open : (k : CaseId) (c : CustomerId) → Keeps P (case_is_open k c)
  unfolding case_is_open
  Keeps-is_open k c = search store_rules depth 12

  Keeps-raced :
      (c : CustomerId) (mail : InboundEmail) (row : Option CaseRow)
      → Keeps P (raced_case c mail row)
  unfolding raced_case
  Keeps-raced c mail none = search store_rules
  Keeps-raced c mail (some row) = search (store_rules, Keeps-is_open) depth 12

module _ {P : World → Type 0} (wr : Writes P) (op : Opens P) where
  Keeps-found :
      (c : CustomerId) (mail : InboundEmail) (row : Option CaseRow)
      → Keeps P (resolve_found c mail row)
  unfolding resolve_found
  Keeps-found c mail (some row) = search (store_rules, Keeps-is_open) depth 12
  Keeps-found c mail none =
      Keeps-on_integrity_error _ _
        (Keeps-in_savepoint wr.frames _
          (λ o.
            Keeps-bind _ _ (Keeps-create (quiet o) (quiet_Opens o) c mail)
              (λ k. Keeps-pure (k, true)))
          (Keeps-bind _ _ (Keeps-create wr op c mail) (λ k. Keeps-pure (k, true))))
        (Keeps-from_state _ (λ w. Keeps-raced wr c mail _))

  Keeps-resolve : (c : CustomerId) (mail : InboundEmail) → Keeps P (resolve_inbound_case c mail)
  unfolding resolve_inbound_case
  Keeps-resolve c mail = search (store_rules, Keeps-found) depth 12

module _ {P : World → Type 0} (sv : Serves P) where
  Keeps-receive : (mail : InboundEmail) (row : Option CustomerRow) → Keeps P (receive_from mail row)
  unfolding receive_from send_unknown_sender_reply
  Keeps-receive mail none = search (store_rules, sv.acts.sends) depth 12
  Keeps-receive mail (some row) =
      search
        (
          store_rules,
          Keeps-expire sv.acts.sends.writes,
          Keeps-resolve sv.acts.sends.writes sv.opens,
        )
        depth 20

module _ {P : World → Type 0} (ac : Acts P) where
  module _ (lower : String → String) (env : Environment) (loop_fuel queue_fuel : ℕ) where
    Keeps-drain : (ks : List CaseId) → Keeps P (drain lower env loop_fuel queue_fuel ks)
    unfolding drain
    Keeps-drain ks = Keeps-queue ac env loop_fuel queue_fuel ks

    Keeps-resume : (o : OperatorOutcome) → Keeps P (resume_after lower env loop_fuel queue_fuel o)
    unfolding resume_after
    Keeps-resume o = Keeps-drain _

    pub Keeps-post_approve :
        (r : RefundId) (operator : String)
        → Keeps P (post_operator_approve lower env loop_fuel queue_fuel r operator)
    unfolding post_operator_approve
    Keeps-post_approve r operator = search (store_rules, ac.approves, Keeps-resume) depth 20

    pub Keeps-post_reject :
        (r : RefundId) (operator reason : String)
        → Keeps P (post_operator_reject lower env loop_fuel queue_fuel r operator reason)
    unfolding post_operator_reject
    Keeps-post_reject r operator reason = search (store_rules, Keeps-reject, Keeps-resume) depth 20

    Keeps-answer :
        (o : VerificationOutcome) → Keeps P (answer_confirmation lower env loop_fuel queue_fuel o)
    unfolding answer_confirmation
    Keeps-answer VerificationOutcome.not_found = search store_rules
    Keeps-answer (VerificationOutcome.expired c k) = search (store_rules, Keeps-drain) depth 12
    Keeps-answer (VerificationOutcome.verified c ks) = search (store_rules, Keeps-drain) depth 12

    pub Keeps-post_confirm :
        (token : ℕ) → Keeps P (post_verification_confirm lower env loop_fuel queue_fuel token)
    unfolding post_verification_confirm
    Keeps-post_confirm token = search (store_rules, Keeps-confirm, Keeps-answer) depth 20

  pub Keeps-pending : Keeps P get_operator_pending
  unfolding get_operator_pending
  Keeps-pending = search store_rules depth 12

module _ {P : World → Type 0} (sv : Serves P) (lower : String → String) (env : Environment)
    (loop_fuel queue_fuel : ℕ) where
  pub Keeps-inbound :
      (mail : InboundEmail) → Keeps P (post_inbound_email lower env loop_fuel queue_fuel mail)
  unfolding post_inbound_email
  Keeps-inbound mail = search (store_rules, Keeps-receive sv, Keeps-drain sv.acts) depth 20
