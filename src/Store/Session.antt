-- ===== src/Store/Session.antt =====
-- The state that an operation runs in, and the operations' monad: a database as the session sees it,
-- the database as last committed, the sources of time (clock.py) and identifiers (ids.py), and what
-- the mock adapters have recorded. Operations on one customer run one at a time, as the customer's
-- advisory lock makes them; what was written before a raise stays written until a rollback.
use refundagent.Common.{ℕ, ◌+◌, String, Bool, Option, none, some, List, if◌then◌else◌}
use refundagent.Common.Int.{ℤ}
use refundagent.Domain.Result.{Error, Result, ok, err, integrity_error}
use refundagent.Domain.Texts.{RefundId, Instant, Text}
use refundagent.Store.Rows.{Database}

-- adapters/payment.py
pub record RefundCall : Type 0 where
  pub idempotency_key : RefundId
  pub amount : ℤ

-- adapters/mailer.py
pub record OutboxMessage : Type 0 where
  pub to : String
  pub subject : String
  pub body : Text

-- adapters/ticketing.py
pub record EscalationRecord : Type 0 where
  pub reason : Text
  pub ticket_id : ℕ

pub record Outside : Type 0 where
  pub calls : List RefundCall
  -- `provider_ref_by_idempotency_key`
  pub provider_refs : List (RefundId × ℕ)
  pub outbox : List OutboxMessage
  pub escalations : List EscalationRecord

-- `clock` holds every reading to come, and `ticks` counts those made.
pub record World : Type 0 where
  pub db : Database
  pub durable : Database
  pub outside : Outside
  pub clock : ℕ → Instant
  pub ticks : ℕ
  pub next_id : ℕ

abbrev pub Tx : Type 0 → Type 0
Tx A = World → Result A × World

module _ {A : Type 0} where
  unfoldable pub pure : A → Tx A
  pure a w = (ok a, w)

  unfoldable pub raise : Error → Tx A
  raise e w = (err e, w)

  unfoldable pub lift : Result A → Tx A
  lift r w = (r, w)

  unfoldable pub gets : (World → A) → Tx A
  gets f w = (ok (f w), w)

  abbrev required : Option A → Error → Result A
  required none e = err e
  required (some a) e = ok a

  unfoldable pub require : Option A → Error → Tx A
  require o e w = (required o e, w)

  -- A step whose code depends on the state at its start.
  unfoldable pub from_state : (World → Tx A) → Tx A
  from_state m w = m w w

unfoldable pub fail_if : Bool → Error → Tx (Unit {0})
fail_if b e w = (if b then err e else ok tt, w)

-- clock.py: `now()`
unfoldable pub now : Tx Instant
now w = (ok (w.clock w.ticks), record w { ticks = w.ticks + 1 })

-- ids.py: the number of the next identifier, whatever its prefix
unfoldable pub fresh_id : Tx ℕ
fresh_id w = (ok w.next_id, record w { next_id = w.next_id + 1 })

-- What a step does after the one before it has ended.
abbrev pub after : {A B : Type 0} → (A → Tx B) → Result A → Tx B
after f (ok a) w = f a w
after f (err e) w = (err e, w)

infixl 5 ◌>>=◌ ◌>>◌
-- Opening this opens the steps above too.
unfoldable pub ◌>>=◌ : {A B : Type 0} → Tx A → (A → Tx B) → Tx B
unfolding pure raise lift gets require from_state fail_if now fresh_id
◌>>=◌ m f w = let (r, w') = m w in after f r w'

abbrev pub ◌>>◌ : {A B : Type 0} → Tx A → Tx B → Tx B
m >> k = m >>= λ _. k

-- `session.commit()`, and leaving a session with nothing committed
abbrev pub committed : World → World
committed w = record w { durable = w.db }

abbrev pub rolled_back : World → World
rolled_back w = record w { db = w.durable }

module _ {A : Type 0} where
  abbrev pub settle : Result A → World → Result A × World
  settle (ok a) w = (ok a, committed w)
  settle (err e) w = (err e, rolled_back w)

  -- `async with session_factory.begin() as session`
  unfoldable pub in_transaction : Tx A → Tx A
  in_transaction m w = let (r, w') = m w in settle r w'

  abbrev pub restore : Database → Result A → World → Result A × World
  restore saved (ok a) w = (ok a, w)
  restore saved (err e) w = (err e, record w { db = saved })

  -- `async with session.begin_nested()`: a savepoint
  unfoldable pub in_savepoint : Tx A → Tx A
  in_savepoint m w = let (r, w') = m w in restore w.db r w'

  abbrev pub handle : Tx A → Result A → Tx A
  handle handler (err integrity_error) w = handler w
  handle handler r w = (r, w)

  -- `try: … except IntegrityError: …`
  unfoldable pub on_integrity_error : Tx A → Tx A → Tx A
  on_integrity_error m handler w = let (r, w') = m w in handle handler r w'
