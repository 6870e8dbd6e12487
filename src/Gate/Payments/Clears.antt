-- ===== src/Gate/Payments/Clears.antt =====
-- A proposal that ends in an automatic approval leaves an approved row: the rules of the monad.
use refundagent.Common.{Bool, true, false, if◌then◌else◌}
use refundagent.Domain.Result.{Error, Result, ok, err, integrity_error}
use refundagent.Gate.Refund.{Proposal}
use refundagent.Policy.Verdicts.{Blocking, RequireApproval}
use refundagent.Store.Rows.{Database}
use refundagent.Store.Session.{
  Tx, World, pure, raise, ◌>>=◌, after, restore, in_savepoint, handle, on_integrity_error,
}
use refundagent.Gate.Backing.{IsBacked}

-- An automatic approval leaves a row that backs its payment.
abbrev pub Cleared : Result Proposal → Database → Type 0
Cleared (ok (Proposal.auto_approved key amount)) db =
    IsBacked (record { idempotency_key = key.refund_id; amount = amount }) db
Cleared _ db = Unit

pub record Clears (m : Tx Proposal) : Type 0 where
  pub at : (w : World) → Cleared (m w).0 (m w).1.db

Cleared-after :
    {A : Type 0} (f : A → Tx Proposal) (r : Result A) (w : World)
    → ((a : A) → Clears (f a))
    → Cleared (after f r w).0 (after f r w).1.db
Cleared-after f (ok a) w k = (k a).at w
Cleared-after f (err e) w k = tt

pub Clears-bind :
    {A : Type 0} (m : Tx A) (f : A → Tx Proposal) → ((a : A) → Clears (f a)) → Clears (m >>= f)
unfolding ◌>>=◌
Clears-bind m f k = record { at = λ w. let (r, w') = m w in Cleared-after f r w' k }

pub Clears-no_refund : (b : Blocking) → Clears (pure (Proposal.no_refund b))
unfolding pure
Clears-no_refund b = record { at = λ w. tt }

pub Clears-waiting : (r : RequireApproval) → Clears (pure (Proposal.waiting r))
unfolding pure
Clears-waiting r = record { at = λ w. tt }

pub Clears-raise : (e : Error) → Clears (raise e)
unfolding raise
Clears-raise e = record { at = λ w. tt }

pub Clears-if : (b : Bool) (m n : Tx Proposal) → Clears m → Clears n → Clears (if b then m else n)
Clears-if true m n cm cn = cm
Clears-if false m n cm cn = cn

Cleared-restore :
    (saved : Database) (r : Result Proposal) (w : World)
    → Cleared r w.db
    → Cleared (restore saved r w).0 (restore saved r w).1.db
Cleared-restore saved (ok p) w h = h
Cleared-restore saved (err e) w h = tt

pub Clears-in_savepoint : (m : Tx Proposal) → Clears m → Clears (in_savepoint m)
unfolding in_savepoint
Clears-in_savepoint m cm = record {
  at = λ w. let (r, w') = m w in Cleared-restore w.db r w' (cm.at w);
}

Cleared-handle :
    (n : Tx Proposal) (r : Result Proposal) (w : World)
    → Cleared r w.db
    → Clears n
    → Cleared (handle n r w).0 (handle n r w).1.db
Cleared-handle n (ok p) w h cn = h
Cleared-handle n (err integrity_error) w h cn = cn.at w
Cleared-handle n (err e) w h cn = tt

pub Clears-on_integrity_error :
    (m n : Tx Proposal) → Clears m → Clears n → Clears (on_integrity_error m n)
unfolding on_integrity_error
Clears-on_integrity_error m n cm cn = record {
  at = λ w. let (r, w') = m w in Cleared-handle n r w' (cm.at w) cn;
}

pub ruleset clear_rules = (Clears-bind, Clears-no_refund, Clears-waiting, Clears-raise, Clears-if)
