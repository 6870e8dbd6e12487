-- ===== src/Gate/Payments.antt =====
-- The payments of gate/refund.py: what an operation that may pay accounts for.
pub mod Executed
pub mod Fits
pub mod Allowed
pub mod Approval
pub mod Clears
pub mod Proposal
pub mod Quiet
use refundagent.Common.{
  ℕ, ◌==◌, Bool, true, false, ◌&&◌, ◌||◌, Option, none, some, List, [], ◌∷◌, ◌++◌, any, filter,
  length, ◌≡◌, refl, ◌⊎◌, inl, inr, arith, ap, ◌∙◌, Bool-cases, if◌then◌else◌,
}
use refundagent.Common.Int.{ℤ, eq_ℤ}
use refundagent.Domain.Enums.{RefundStatus}
use refundagent.Domain.Result.{Result, ok, err, Result-cases}
use refundagent.Domain.Texts.{RefundId}
use refundagent.Gate.Keeps.Payments.{Keeps-executed, Keeps-pay}
use refundagent.Gate.Refund.{
  RefundKey, commit, execute_payment_after_committed_intent, record_refund_executed_after_payment,
}
use refundagent.Store.Adapters.{payment_refund, provider_ref_of, call_provider}
use refundagent.Store.Keeps.{Frames, Keeps, keeps_rules}
use refundagent.Store.Keeps.Stable.{Writes, WritesDatabase, Both, Both-Stable, quiet}
use refundagent.Store.Keeps.Rules.{store_rules}
use refundagent.Store.Rows.{Database, RefundRow}
use refundagent.Store.Queries.{lock_customer_for_update}
use refundagent.Store.Session.{
  Tx, World, Outside, RefundCall, pure, ◌>>=◌, ◌>>◌, after, in_transaction, settle, committed,
}
use refundagent.Store.Transitions.{
  RefundIntentBinding, selected, binds, transition_permitted, allowed_refund_status_targets,
  update_rows, moved,
}
use refundagent.Gate.Backing.{cleared, backs, IsBacked, IsBacked-WritesDatabase, approved-IsBacked}

-- At most one more payment call, and if so for a refund that is committed as approved or executed.
abbrev pub Accounted : List RefundCall → World → Type 0
Accounted before w =
    (w.outside.calls ≡ before)
    ⊎ ((call : RefundCall) × (w.outside.calls ≡ before ++ call ∷ []) × Both (IsBacked call) w)

call_provider-calls :
    (r : RefundId) (amount : ℤ) (ref : Option ℕ) (o : Outside)
    → (call_provider r amount ref o).1.calls
      ≡ o.calls ++ (record { idempotency_key = r; amount = amount }) ∷ []
call_provider-calls r amount none o = refl
call_provider-calls r amount (some ref) o = refl

recorded-quiet :
    (key : RefundKey) (amount : ℤ) (ref : ℕ) (o : Outside)
    → Keeps
        (λ w. w.outside ≡ o)
        (in_transaction (do
          lock_customer_for_update key.customer_id
          record_refund_executed_after_payment key amount ref))
recorded-quiet key amount ref o = search (store_rules, Keeps-executed) depth 20

-- One call of the provider, which stays backed.
pub pay-Accounted :
    (key : RefundKey) (amount : ℤ) (w : World)
    → Both (IsBacked (record { idempotency_key = key.refund_id; amount = amount })) w
    → Accounted w.outside.calls (execute_payment_after_committed_intent key amount w).1
unfolding execute_payment_after_committed_intent payment_refund ◌>>=◌
pay-Accounted key amount w h =
    let (ref, o) =
      call_provider key.refund_id amount (provider_ref_of key.refund_id w.outside.provider_refs)
        w.outside in
    inr (
      record { idempotency_key = key.refund_id; amount = amount },
      ap (λ x. x.calls) ((recorded-quiet key amount ref o).at (record w { outside = o }) refl)
          ∙ call_provider-calls key.refund_id amount _ w.outside,
      (Keeps-pay (Both-Stable (IsBacked-WritesDatabase _)) key amount).at w h,
    )

-- `m` leaves the adapters as they are.
abbrev pub IsQuiet : {A : Type 0} → Tx A → Type 0
IsQuiet m = (o : Outside) → Keeps (λ w. w.outside ≡ o) m

-- `m` accounts for its payment call, if it makes one.
pub record Accounts {A : Type 0} (m : Tx A) : Type 0 where
  pub at : (w : World) → Accounted w.outside.calls (m w).1

module _ {A : Type 0} where
  pub Accounts-quiet : (m : Tx A) → IsQuiet m → Accounts m
  Accounts-quiet m q = record { at = λ w. inl (ap (λ o. o.calls) ((q w.outside).at w refl)) }

  pub Accounts-if :
      (b : Bool) (m n : Tx A) → Accounts m → Accounts n → Accounts (if b then m else n)
  Accounts-if true m n am an = am
  Accounts-if false m n am an = an

  -- What comes after a payment's transaction changes nothing.
  return_world : (m : Tx A) {B : Type 0} (b : B) (w : World) → ((m >>= λ _. pure b) w).1 ≡ (m w).1
  unfolding ◌>>=◌
  return_world m b w = elim (Result-cases (m w).0) [
    | inl (a, went) ↦ rw went refl
    | inr (e, failed) ↦ rw failed refl
  ]

  settled :
      (before : List RefundCall) (r : Result A) (w : World)
      → Accounted before w
      → Accounted before (settle r w).1
  settled before (ok a) w (inl same) = inl same
  settled before (ok a) w (inr (call, same, h)) = inr (call, same, (h.0, h.0))
  settled before (err e) w (inl same) = inl same
  settled before (err e) w (inr (call, same, h)) = inr (call, same, (h.1, h.1))

  pub Accounts-in_transaction : (m : Tx A) → Accounts m → Accounts (in_transaction m)
  unfolding in_transaction
  Accounts-in_transaction m am = record {
    at = λ w. let (r, w') = m w in settled w.outside.calls r w' (am.at w);
  }

module _ {A B : Type 0} where
  Accounted-after :
      (o : Outside) (f : A → Tx B) (r : Result A) (w : World)
      → w.outside ≡ o
      → ((a : A) → Accounts (f a))
      → Accounted o.calls (after f r w).1
  Accounted-after o f (ok a) w same k = rw (← same) ((k a).at w)
  Accounted-after o f (err e) w same k = inl (ap (λ x. x.calls) same)

  pub Accounts-bind :
      (m : Tx A) (f : A → Tx B) → IsQuiet m → ((a : A) → Accounts (f a)) → Accounts (m >>= f)
  unfolding ◌>>=◌
  Accounts-bind m f q k = record {
    at = λ w. let (r, w') = m w in Accounted-after w.outside f r w' ((q w.outside).at w refl) k;
  }

-- Commit and pay, from a state whose refund table backs the call.
pub commit_and_pay :
    {B : Type 0} (key : RefundKey) (amount : ℤ) (b : B) (w : World)
    → IsBacked (record { idempotency_key = key.refund_id; amount = amount }) w.db
    → Accounted w.outside.calls
        ((commit >> (execute_payment_after_committed_intent key amount >>= λ _. pure b)) w).1
unfolding commit ◌>>=◌
commit_and_pay key amount b w h =
    rw (return_world (execute_payment_after_committed_intent key amount) b (committed w))
      (pay-Accounted key amount (committed w) (h, h))

pub ruleset account_rules = (Accounts-quiet, Accounts-if, Accounts-bind, Accounts-in_transaction)
