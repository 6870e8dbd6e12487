-- ===== src/Store/Delivers.antt =====
-- What holds of the result and the state where a step returns: the rules of the monad.
use refundagent.Common.{Bool, true, false, ◌≡◌, refl, if◌then◌else◌}
use refundagent.Domain.Result.{Result, ok, err}
use refundagent.Store.Session.{Tx, World, pure, ◌>>=◌, after}

-- What holds where `m` returns.
pub record Delivers {A : Type 0} (Q : A → World → Type 0) (m : Tx A) : Type 0 where
  pub at : (w : World) (a : A) → (m w).0 ≡ ok a → Q a (m w).1

module _ {A B : Type 0} (Q : B → World → Type 0) where
  after-delivers :
      (f : A → Tx B) (r : Result A) (w : World) (b : B)
      → ((a : A) → Delivers Q (f a))
      → (after f r w).0 ≡ ok b
      → Q b (after f r w).1
  after-delivers f (ok a) w b k h = (k a).at w b h
  after-delivers f (err e) w b k h = cc

  last-delivers :
      (x : B) (r : Result A) (w : World) (b : B)
      → ((a : A) → r ≡ ok a → Q x w)
      → (after (λ _. pure x) r w).0 ≡ ok b
      → Q b (after (λ _. pure x) r w).1
  unfolding pure
  last-delivers x (ok a) w b k h = let same : x ≡ b = cc in rw (← same) (k a refl)
  last-delivers x (err e) w b k h = cc

module _ {A B : Type 0} {Q : B → World → Type 0} where
  pub Delivers-bind :
      (m : Tx A) (f : A → Tx B) → ((a : A) → Delivers Q (f a)) → Delivers Q (m >>= f)
  unfolding ◌>>=◌
  Delivers-bind m f k = record { at = λ w b h. let (r, w') = m w in after-delivers Q f r w' b k h }

  -- The value that is returned at the end does not change the state.
  pub Delivers-last :
      (R : World → Type 0) (m : Tx A) (x : B)
      → ((w : World) → R w → Q x w)
      → Delivers (λ _ w. R w) m
      → Delivers Q (m >>= λ _. pure x)
  unfolding ◌>>=◌
  Delivers-last R m x q k = record {
    at = λ w b h. let (r, w') = m w in last-delivers Q x r w' b (λ a went. q w' (k.at w a went)) h;
  }

module _ {B : Type 0} {Q : B → World → Type 0} where
  pub Delivers-if :
      (b : Bool) (m n : Tx B) → Delivers Q m → Delivers Q n → Delivers Q (if b then m else n)
  Delivers-if true m n dm dn = dm
  Delivers-if false m n dm dn = dn

  pub Delivers-pure : (x : B) → ((w : World) → Q x w) → Delivers Q (pure x)
  unfolding pure
  Delivers-pure x k = record { at = λ w b h. let same : x ≡ b = cc in rw (← same) (k w) }

-- The rest of the block may use what holds of the first step's value.
module _ {A B : Type 0} {Q : B → World → Type 0} where
  then-delivers :
      (R : A → Type 0) (f : A → Tx B) (r : Result A) (w : World) (b : B)
      → ((a : A) → r ≡ ok a → R a)
      → ((a : A) → R a → Delivers Q (f a))
      → (after f r w).0 ≡ ok b
      → Q b (after f r w).1
  then-delivers R f (ok a) w b k d h = (d a (k a refl)).at w b h
  then-delivers R f (err e) w b k d h = cc

  pub Delivers-then :
      (R : A → Type 0) (m : Tx A) (f : A → Tx B)
      → Delivers (λ a _. R a) m
      → ((a : A) → R a → Delivers Q (f a))
      → Delivers Q (m >>= f)
  unfolding ◌>>=◌
  Delivers-then R m f k d = record {
    at = λ w b h. let (r, w') = m w in then-delivers R f r w' b (k.at w) d h;
  }
