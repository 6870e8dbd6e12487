-- ===== src/Store/Returns.antt =====
-- What holds of the result and the state where a step returns, from what held at its start: the
-- rules of the monad.
use refundagent.Common.{Bool, true, false, ◌≡◌, refl, if◌then◌else◌, Option, none, some}
use refundagent.Domain.Result.{Error, Result, ok, err, integrity_error}
use refundagent.Store.Keeps.{Keeps}
use refundagent.Store.Session.{
  Tx, World, pure, raise, lift, gets, require, from_state, ◌>>=◌, after, settle, restore, handle,
  committed, in_transaction, in_savepoint, on_integrity_error,
}

-- Where `m` starts in a state that satisfies `P` and returns, its value and its state satisfy `Q`.
pub record Returns {A : Type 0} (P : World → Type 0) (Q : A → World → Type 0) (m : Tx A)
    : Type 0 where
  pub at : (w : World) (a : A) → P w → (m w).0 ≡ ok a → Q a (m w).1

module _ {P : World → Type 0} {A : Type 0} where
  -- What a step keeps.
  pub Returns-keep : (m : Tx A) → Keeps P m → Returns P (λ _. P) m
  Returns-keep m km = record { at = λ w a h returned. km.at w h }

  -- A fact that does not depend on the state.
  pub Returns-given :
      (T : Type 0) (Q : A → World → Type 0) (m : Tx A)
      → (T → Returns P Q m)
      → Returns (λ w. P w × T) Q m
  Returns-given T Q m k = record { at = λ w a h returned. (k h.1).at w a h.0 returned }

module _ {A : Type 0} {Q : A → World → Type 0} where
  settle-Returns :
      ((a : A) (w : World) → Q a w → Q a (committed w))
      → (r : Result A) (w : World) (a : A) → ((x : A) → r ≡ ok x → Q x w)
      → (settle r w).0 ≡ ok a
      → Q a (settle r w).1
  settle-Returns c (ok x) w a k h = c a w (k a h)
  settle-Returns c (err e) w a k h = cc

module _ {P : World → Type 0} {A : Type 0} {Q : A → World → Type 0} where
  -- What a step keeps, beside what it returns.
  pub Returns-both : (m : Tx A) → Keeps P m → Returns P Q m → Returns P (λ a w. P w × Q a w) m
  Returns-both m km r = record { at = λ w a h returned. (km.at w h, r.at w a h returned) }

  pub Returns-pure : (a : A) → ((w : World) → P w → Q a w) → Returns P Q (pure a)
  unfolding pure
  Returns-pure a k = record { at = λ w b h returned. let e : a ≡ b = cc in rw (← e) (k w h) }

  pub Returns-raise : (e : Error) → Returns P Q (raise {A = A} e)
  unfolding raise
  Returns-raise e = record { at = λ w b h returned. cc }

  pub Returns-if :
      (b : Bool) (m m' : Tx A) → Returns P Q m → Returns P Q m' → Returns P Q (if b then m else m')
  Returns-if true m m' r r' = r
  Returns-if false m m' r r' = r'

  -- A stronger start and a weaker end.
  pub Returns-weaken :
      {P' : World → Type 0} {Q' : A → World → Type 0} (m : Tx A)
      → ((w : World) → P w → P' w)
      → ((a : A) (w : World) → Q' a w → Q a w)
      → Returns P' Q' m
      → Returns P Q m
  Returns-weaken m i o r = record { at = λ w a h returned. o a _ (r.at w a (i w h) returned) }

  pub Returns-in_transaction :
      ((a : A) (w : World) → Q a w → Q a (committed w))
      → (m : Tx A) → Returns P Q m
      → Returns P Q (in_transaction m)
  unfolding in_transaction
  Returns-in_transaction c m y = record {
    at = λ w a h returned.
        let (r, w') = m w in settle-Returns c r w' a (λ x went. y.at w x h went) returned;
  }

  attempt-Returns :
      (other : Tx A) (v : World) (r : Result A) (w : World) (a : A)
      → P (record w { db = v.db })
      → ((x : A) → r ≡ ok x → Q x w)
      → Returns P Q other
      → (handle other (restore v.db r w).0 (restore v.db r w).1).0 ≡ ok a
      → Q a (handle other (restore v.db r w).0 (restore v.db r w).1).1
  attempt-Returns other v (ok x) w a h k y returned = k a returned
  attempt-Returns other v (err integrity_error) w a h k y returned = y.at _ a h returned
  attempt-Returns other v (err e) w a h k y returned = cc

  -- A savepoint with the answer to its IntegrityError, from what the database alone decides.
  pub Returns-attempt :
      ((v w : World) → P v → P (record w { db = v.db }))
      → (m other : Tx A) → Returns P Q m
      → Returns P Q other
      → Returns P Q (on_integrity_error (in_savepoint m) other)
  unfolding on_integrity_error in_savepoint
  Returns-attempt back m other y y' = record {
    at = λ w a h returned.
        let (r, w') = m w in
        attempt-Returns other w r w' a (back w w' h) (λ x went. y.at w x h went) y' returned;
  }

  pub Returns-from_state :
      (m : World → Tx A) → ((w : World) → Returns P Q (m w)) → Returns P Q (from_state m)
  unfolding from_state
  Returns-from_state m k = record { at = λ w a h returned. (k w).at w a h returned }

module _ {A B : Type 0} {Q : B → World → Type 0} where
  after-Returns :
      (R : A → World → Type 0) (f : A → Tx B) (r : Result A) (w : World) (b : B)
      → ((a : A) → r ≡ ok a → R a w)
      → ((a : A) → Returns (R a) Q (f a))
      → (after f r w).0 ≡ ok b
      → Q b (after f r w).1
  after-Returns R f (ok a) w b h k returned = (k a).at w b (h a refl) returned
  after-Returns R f (err e) w b h k returned = cc

module _ {P : World → Type 0} {A B : Type 0} {Q : B → World → Type 0} where
  pub Returns-bind :
      (R : A → World → Type 0) (m : Tx A) (f : A → Tx B)
      → Returns P R m
      → ((a : A) → Returns (R a) Q (f a))
      → Returns P Q (m >>= f)
  unfolding ◌>>=◌
  Returns-bind R m f y k = record {
    at = λ w b h returned.
        let (r, w') = m w in after-Returns R f r w' b (λ a went. y.at w a h went) k returned;
  }

  -- After a step that keeps what held.
  pub Returns-after :
      (m : Tx A) (f : A → Tx B) → Keeps P m → ((a : A) → Returns P Q (f a)) → Returns P Q (m >>= f)
  Returns-after m f km k = Returns-bind (λ _. P) m f (Returns-keep m km) k

  -- A query, and what it read.
  pub Returns-gets :
      (g : World → A) (f : A → Tx B)
      → ((a : A) → Returns (λ w. P w × (g w ≡ a)) Q (f a))
      → Returns P Q (gets g >>= f)
  unfolding ◌>>=◌
  Returns-gets g f k = record { at = λ w b h returned. (k (g w)).at w b (h, refl) returned }

  -- A lookup that must find something.
  pub Returns-require :
      (o : Option A) (e : Error) (f : A → Tx B)
      → ((a : A) → o ≡ some a → Returns P Q (f a))
      → Returns P Q (require o e >>= f)
  unfolding ◌>>=◌
  Returns-require none e f k = record { at = λ w b h returned. cc }
  Returns-require (some a) e f k = record { at = λ w b h returned. (k a refl).at w b h returned }

  pub Returns-lift :
      (r : Result A) (f : A → Tx B)
      → ((a : A) → r ≡ ok a → Returns P Q (f a))
      → Returns P Q (lift r >>= f)
  unfolding ◌>>=◌
  Returns-lift (err e) f k = record { at = λ w b h returned. cc }
  Returns-lift (ok a) f k = record { at = λ w b h returned. (k a refl).at w b h returned }
