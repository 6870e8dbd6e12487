-- ===== src/Store/Adapters.antt =====
-- adapters/: the mock payment provider, mailer and ticketing system.
use refundagent.Common.{
  ℕ, ◌+◌, ◌==◌, String, Option, none, some, List, [], ◌∷◌, ◌++◌, if◌then◌else◌,
}
use refundagent.Common.Int.{ℤ}
use refundagent.Domain.Result.{ok}
use refundagent.Domain.Texts.{RefundId, Text}
use refundagent.Store.Session.{Tx, Outside}

abbrev pub provider_ref_of : RefundId → List (RefundId × ℕ) → Option ℕ
provider_ref_of r [] = none
provider_ref_of r ((s, ref) ∷ rest) = if s == r then some ref else provider_ref_of r rest

abbrev pub call_provider : RefundId → ℤ → Option ℕ → Outside → ℕ × Outside
call_provider r amount (some ref) o =
    (ref, record o { calls = o.calls ++ (record { idempotency_key = r; amount = amount }) ∷ [] })
call_provider r amount none o = (
  r,
  record o {
    calls = o.calls ++ (record { idempotency_key = r; amount = amount }) ∷ [];
    provider_refs = (r, r) ∷ o.provider_refs;
  },
)

-- `payment.refund`: every call is recorded, and a repeated key gets the reference that it has. The
-- reference `pay_<key>` of a new key is kept as the key.
unfoldable pub payment_refund : RefundId → ℤ → Tx ℕ
payment_refund r amount w =
    let (ref, outside) =
      call_provider r amount (provider_ref_of r w.outside.provider_refs) w.outside in
    (ok ref, record w { outside = outside })

-- `mailer.send`
unfoldable pub mailer_send : String → String → Text → Tx (Unit {0})
mailer_send to subject body w = (
  ok tt,
  record w {
    outside = record w.outside {
      outbox = w.outside.outbox ++ (record { to = to; subject = subject; body = body }) ∷ [];
    };
  },
)

-- `ticketing.escalate`
unfoldable pub ticketing_escalate : Text → Tx ℕ
ticketing_escalate reason w = (
  ok w.next_id,
  record w {
    next_id = w.next_id + 1;
    outside = record w.outside {
      escalations =
          w.outside.escalations ++ (record { reason = reason; ticket_id = w.next_id }) ∷ [];
    };
  },
)
