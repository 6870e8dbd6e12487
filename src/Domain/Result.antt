-- ===== src/Domain/Result.antt =====
-- The exceptions that the program raises on purpose, and the results of code that may raise.
use refundagent.Common.{Bool, true, false, Option, none, some, ◌≡◌, ◌≢◌, ◌⊎◌, inl, inr, refl}

pub data Error : Type 0 where
  -- LookupError and its subclasses
  case_not_found customer_not_found refund_not_found : Error
  -- domain/events.py, repositories/relational_scope.py
  invalid_event_scope invalid_relational_scope invalid_actor_channel : Error
  -- domain/tables.py, repositories/refund_transitions.py, repositories/refund_intent.py
  refund_status_transition refund_intent_integrity : Error
  -- policy/authorisation.py
  already_spent authorisation_mismatch authorisation_error : Error
  -- a check that is wired to an action type it does not fit
  miswired_obligation : Error
  -- decimal.InvalidOperation, sqlalchemy's IntegrityError
  invalid_operation integrity_error : Error
  -- a ValueError of `str.encode`
  unicode_error : Error
  value_error key_error type_error runtime_error assertion_error : Error
  -- agent/gateway.py and the worker's protocol.py
  protocol_error overflow_error : Error

-- What code that may raise comes to: an exception, or a value.
pub data Result {ℓ} (A : Type ℓ) : Type ℓ where
  err : Error → Result A
  ok : A → Result A

module _ {ℓ κ} {A : Type ℓ} {B : Type κ} where
  infixl 5 ◌>>=◌
  abbrev pub ◌>>=◌ : Result A → (A → Result B) → Result B
  err raised >>= rest = err raised
  ok value >>= rest = rest value

-- One step and then the next, without the value of the first.
infixl 5 ◌>>◌
abbrev pub ◌>>◌ {ℓ} : {B : Type ℓ} → Result (Unit {0}) → Result B → Result B
first >> second = first >>= λ _. second

abbrev pub raise_if : Bool → Error → Result (Unit {0})
raise_if true e = err e
raise_if false e = ok tt

abbrev pub or_raise {ℓ} : {A : Type ℓ} → Option A → Error → Result A
or_raise none e = err e
or_raise (some a) e = ok a

-- Both guards passed, when a guarded computation returned.
pub raise_if-eq-ok {ℓ} :
    {B : Type ℓ} (c : Bool) (e : Error) (m : Result B) {b : B}
    → (raise_if c e >> m) ≡ ok b
    → (c ≡ false) × (m ≡ ok b)
raise_if-eq-ok true e m h = cc
raise_if-eq-ok false e m h = (refl, h)

-- What never raises returns.
pub returned {ℓ} : {A : Type ℓ} (r : Result A) → ((e : Error) → r ≢ err e) → (a : A) × (r ≡ ok a)
returned (ok a) h = (a, refl)
returned (err e) h = absurd (h e refl)

pub Result-cases {ℓ} :
    {A : Type ℓ} (r : Result A) → ((a : A) × (r ≡ ok a)) ⊎ ((e : Error) × (r ≡ err e))
Result-cases (ok a) = inl (a, refl)
Result-cases (err e) = inr (e, refl)
