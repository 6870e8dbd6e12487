-- ===== src/Store/Keeps.antt =====
-- Invariants of the database, in a session and as committed, that every step of the monad keeps.

pub mod Stable
pub mod Rules
use refundagent.Common.{◌+◌, Bool, true, false, Option, none, some, ◌≡◌, refl, if◌then◌else◌}
use refundagent.Domain.Result.{Error, Result, ok, err, integrity_error}
use refundagent.Domain.Texts.{Instant}
use refundagent.Store.Session.{
  Tx, World, Outside, pure, raise, lift, gets, require, from_state, fail_if, now, fresh_id, ◌>>=◌,
  in_transaction, in_savepoint, on_integrity_error, settle, restore, committed, rolled_back, handle,
  after,
}

-- Predicates on the state that hold on through the clock, fresh ids, a commit and a savepoint.
pub record Frames (P : World → Type 0) : Type 0 where
  pub on_time : (w : World) → P w → P (record w { ticks = w.ticks + 1 })
  pub on_id : (w : World) → P w → P (record w { next_id = w.next_id + 1 })
  pub on_commit : (w : World) → P w → P (committed w)
  -- A savepoint restores the database of a state from which nothing was sent out.
  pub on_restore : (v w : World) → w.outside ≡ v.outside → P v → P w → P (record w { db = v.db })

-- They hold on through the rollback of a transaction.
pub record Rolls (P : World → Type 0) : Type 0 where
  pub on_rollback : (w : World) → P w → P (rolled_back w)

-- `m` keeps `P`, whether it returns or raises.
pub record Keeps (P : World → Type 0) {A : Type 0} (m : Tx A) : Type 0 where
  pub at : (w : World) → P w → P (m w).1

module _ {P : World → Type 0} (fr : Frames P) (ro : Rolls P) {A : Type 0} where
  settle-frame : (r : Result A) (w : World) → P w → P (settle r w).1
  settle-frame (ok a) w h = fr.on_commit w h
  settle-frame (err e) w h = ro.on_rollback w h

  pub Keeps-in_transaction : (m : Tx A) → Keeps P m → Keeps P (in_transaction m)
  unfolding in_transaction
  Keeps-in_transaction m km = record {
    at = λ w h. let (r, w') = m w in settle-frame r w' (km.at w h);
  }

module _ {P : World → Type 0} (fr : Frames P) {A : Type 0} where
  restore-frame :
      (v : World) (r : Result A) (w : World)
      → w.outside ≡ v.outside
      → P v
      → P w
      → P (restore v.db r w).1
  restore-frame v (ok a) w q s h = h
  restore-frame v (err e) w q s h = fr.on_restore v w q s h

  pub Keeps-in_savepoint :
      (m : Tx A)
      → ((o : Outside) → Keeps (λ w. w.outside ≡ o) m)
      → Keeps P m
      → Keeps P (in_savepoint m)
  unfolding in_savepoint
  Keeps-in_savepoint m q km = record {
    at = λ w h. let (r, w') = m w in restore-frame w r w' ((q w.outside).at w refl) h (km.at w h);
  }

module _ {P : World → Type 0} (fr : Frames P) where
  pub Keeps-now : Keeps P now
  unfolding now
  Keeps-now = record { at = λ w h. fr.on_time w h }

  pub Keeps-fresh_id : Keeps P fresh_id
  unfolding fresh_id
  Keeps-fresh_id = record { at = λ w h. fr.on_id w h }

module _ {Q : World → Type 0} {A : Type 0} where
  pub Keeps-pure : (a : A) → Keeps Q (pure a)
  unfolding pure
  Keeps-pure a = record { at = λ w h. h }

  pub Keeps-raise : (e : Error) → Keeps Q (raise {A = A} e)
  unfolding raise
  Keeps-raise e = record { at = λ w h. h }

  pub Keeps-lift : (r : Result A) → Keeps Q (lift r)
  unfolding lift
  Keeps-lift r = record { at = λ w h. h }

  pub Keeps-gets : (f : World → A) → Keeps Q (gets f)
  unfolding gets
  Keeps-gets f = record { at = λ w h. h }

  pub Keeps-require : (o : Option A) (e : Error) → Keeps Q (require o e)
  unfolding require
  Keeps-require o e = record { at = λ w h. h }

  pub Keeps-from_state : (m : World → Tx A) → ((w : World) → Keeps Q (m w)) → Keeps Q (from_state m)
  unfolding from_state
  Keeps-from_state m k = record { at = λ w h. (k w).at w h }

  pub Keeps-if : (b : Bool) (m n : Tx A) → Keeps Q m → Keeps Q n → Keeps Q (if b then m else n)
  Keeps-if true m n km kn = km
  Keeps-if false m n km kn = kn

  handle-frame : (n : Tx A) (r : Result A) (w : World) → Keeps Q n → Q w → Q (handle n r w).1
  handle-frame n (ok a) w kn h = h
  handle-frame n (err integrity_error) w kn h = kn.at w h
  handle-frame n (err e) w kn h = h

  pub Keeps-on_integrity_error :
      (m n : Tx A) → Keeps Q m → Keeps Q n → Keeps Q (on_integrity_error m n)
  unfolding on_integrity_error
  Keeps-on_integrity_error m n km kn = record {
    at = λ w h. let (r, w') = m w in handle-frame n r w' kn (km.at w h);
  }

module _ {Q : World → Type 0} where
  pub Keeps-fail_if : (b : Bool) (e : Error) → Keeps Q (fail_if b e)
  unfolding fail_if
  Keeps-fail_if b e = record { at = λ w h. h }

module _ {Q : World → Type 0} {A B : Type 0} where
  after-frame :
      (f : A → Tx B) (r : Result A) (w : World)
      → ((a : A) → Keeps Q (f a))
      → Q w
      → Q (after f r w).1
  after-frame f (ok a) w k h = (k a).at w h
  after-frame f (err e) w k h = h

  pub Keeps-bind :
      (m : Tx A) (f : A → Tx B) → Keeps Q m → ((a : A) → Keeps Q (f a)) → Keeps Q (m >>= f)
  unfolding ◌>>=◌
  Keeps-bind m f km k = record { at = λ w h. let (r, w') = m w in after-frame f r w' k (km.at w h) }

pub ruleset keeps_rules = (
  Keeps-pure, Keeps-raise, Keeps-lift, Keeps-gets, Keeps-require, Keeps-from_state, Keeps-if,
  Keeps-in_transaction, Keeps-in_savepoint, Keeps-on_integrity_error, Keeps-fail_if, Keeps-now,
  Keeps-fresh_id, Keeps-bind,
)
