-- ===== src/Store/Keeps/Rules.antt =====
-- The guarded writes, the adapters and the queries keep what is stable.
use refundagent.Common.{String, true, Option, ◌≡◌, refl, inl, inr, arith, Bool-cases}
use refundagent.Common.Int.{ℤ}
use refundagent.Domain.Enums.{Actor, Channel, RefundStatus, same_refund_status}
use refundagent.Domain.Payload.{Payload}
use refundagent.Domain.Result.{Result, ok, err}
use refundagent.Domain.Texts.{CustomerId, CaseId, OrderId, RefundId, Text}
use refundagent.Projection.Types.{StoredEvent}
use refundagent.Store.Adapters.{payment_refund, mailer_send, ticketing_escalate}
use refundagent.Store.Append.{append_canonical_event}
use refundagent.Store.Append.Effect.{Effect, append-Effect}
use refundagent.Store.Keeps.{Frames, Keeps, keeps_rules}
use refundagent.Store.Queries.{
  lock_customer_for_update, require_refund_by_id, validate_refund_relational_scope,
}
use refundagent.Store.Rows.{RefundRow}
use refundagent.Store.Session.{World, ◌>>=◌}
use refundagent.Store.Transitions.{
  RefundIntentBinding, transition_permitted, selected, transition_refund_status,
}
use refundagent.Store.Keeps.Stable.{Writes, Sends, Stable}

eq_of_same_refund_status : (a b : RefundStatus) → same_refund_status a b ≡ true → a ≡ b
eq_of_same_refund_status a b h = ground arith

pub selected-status :
    (r : RefundId) (from : RefundStatus) (binding : Option RefundIntentBinding) (row : RefundRow)
    → selected r from binding row ≡ true
    → row.status ≡ from
unfolding selected
selected-status r from binding row h = ground (arith, eq_of_same_refund_status row.status from)

module _ {P : World → Type 0} (wr : Writes P) where
  append-kept :
      (c : CustomerId) (k : Option CaseId) (o : Option OrderId) (a : Actor) (ch : Channel)
      (p : Payload) (w : World) (out : Result StoredEvent × World)
      → Effect c k o a ch p w out
      → P w
      → P out.1
  append-kept c k o a ch p w (err x, w') (inl same) h = rw same h
  append-kept c k o a ch p w (err x, w') (inr (same, _, _)) h =
      rw same (wr.frames.on_id _ (wr.frames.on_time _ (wr.on_number c w h)))
  append-kept c k o a ch p w (ok e, w') (_, same, _, catalogue, _) h = rw same (
      wr.frames.on_id _
        (wr.frames.on_time _ (wr.on_event c k o a ch p (w.clock w.ticks) w.next_id w catalogue h)))

  pub Keeps-append :
      (c : CustomerId) (k : Option CaseId) (o : Option OrderId) (a : Actor) (ch : Channel)
      (p : Payload)
      → Keeps P (append_canonical_event c k o a ch p)
  Keeps-append c k o a ch p = record {
    at = λ w h.
        append-kept c k o a ch p w (append_canonical_event c k o a ch p w)
          (append-Effect c k o a ch p w) h;
  }

  pub Keeps-transition :
      (r : RefundId) (from to : RefundStatus) (binding : Option RefundIntentBinding)
      → Keeps P (transition_refund_status r from to binding)
  unfolding transition_refund_status ◌>>=◌
  Keeps-transition r from to binding = record {
    at = λ w h. elim (Bool-cases (transition_permitted from to)) [
      | inr refused ↦ rw refused h
      | inl permitted ↦ rw permitted (
          wr.on_status from to (selected r from binding) w permitted
            (selected-status r from binding) h)
    ];
  }

module _ {P : World → Type 0} where
  pub Keeps-lock : (c : CustomerId) → Keeps P (lock_customer_for_update c)
  unfolding lock_customer_for_update
  Keeps-lock c = search keeps_rules

  pub Keeps-require_refund : (r : RefundId) → Keeps P (require_refund_by_id r)
  unfolding require_refund_by_id
  Keeps-require_refund r = search keeps_rules

  pub Keeps-refund_scope :
      (k : CaseId) (o : OrderId) → Keeps P (validate_refund_relational_scope k o)
  unfolding validate_refund_relational_scope
  Keeps-refund_scope k o = search keeps_rules depth 20

module _ {P : World → Type 0} (st : Stable P) where
  pub Keeps-payment : (r : RefundId) (amount : ℤ) → Keeps P (payment_refund r amount)
  unfolding payment_refund
  Keeps-payment r amount = record { at = λ w h. st.on_paid w _ h }

module _ {P : World → Type 0} (se : Sends P) where
  pub Keeps-mail : (to subject : String) (body : Text) → Keeps P (mailer_send to subject body)
  unfolding mailer_send
  Keeps-mail to subject body = record { at = λ w h. se.on_sent w _ refl h }

  pub Keeps-ticket : (reason : Text) → Keeps P (ticketing_escalate reason)
  unfolding ticketing_escalate
  Keeps-ticket reason = record { at = λ w h. se.writes.frames.on_id _ (se.on_sent w _ refl h) }

pub ruleset store_rules = (
  keeps_rules, Keeps-append, Keeps-transition, Keeps-payment, Keeps-mail, Keeps-ticket, Keeps-lock,
  Keeps-require_refund, Keeps-refund_scope,
)
