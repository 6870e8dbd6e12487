-- ===== src/Gate/Verification/Effect.antt =====
-- What confirming a verification token does, on every branch.
use refundagent.Common.{
  ℕ, ◌+◌, leb, Option, none, some, ◌≡◌, refl, ◌⊎◌, inl, inr, Bool-cases, if◌then◌else◌,
}
use refundagent.Domain.Enums.{Actor, Channel, VerificationMethod}
use refundagent.Domain.Payload.{Payload}
use refundagent.Domain.Result.{Result, ok, err, integrity_error}
use refundagent.Gate.Common.{find_open_case_ids_for_customer}
use refundagent.Gate.Verification.{
  VerificationRequestLookup, VerificationOutcome, confirm_found, confirm_verification,
  find_verification_request_by_token,
}
use refundagent.Projection.Types.{StoredEvent}
use refundagent.Store.Append.Effect.{Effect, appended, numbered, append-Effect}
use refundagent.Store.Session.{World, ◌>>=◌, pure, gets, after}

abbrev pub ticked : World → World
ticked w = record w { ticks = w.ticks + 1 }

module _ (f : VerificationRequestLookup) (w : World) where
  -- The state with the customer's verification in the log, at a state whose clock was just read.
  abbrev pub verified_world : World
  verified_world =
      appended f.customer_id none none Actor.system Channel.verification_api
        (Payload.customer_verified VerificationMethod.token) (ticked w)

  -- The state where the log refuses the verification: its number, its time and its id are taken.
  abbrev pub unverified_world : World
  unverified_world =
      numbered f.customer_id none none Actor.system Channel.verification_api
        (Payload.customer_verified VerificationMethod.token) (ticked w)

  -- A token that is still valid.
  abbrev pub IsRedeemed : Result VerificationOutcome × World → Type 0
  IsRedeemed (ok o, w') =
      (w' ≡ verified_world)
      × (o
          ≡ VerificationOutcome.verified f.customer_id
              (find_open_case_ids_for_customer f.customer_id (w.clock w.ticks) verified_world.db))
  IsRedeemed (err x, w') = (w' ≡ ticked w) ⊎ ((w' ≡ unverified_world) × (x ≡ integrity_error))

-- The answer and the state after a confirmation, given what the lookup found.
abbrev pub IsConfirmed :
    Option VerificationRequestLookup → World → Result VerificationOutcome × World → Type 0
IsConfirmed none w out = out ≡ (ok VerificationOutcome.not_found, w)
IsConfirmed (some f) w out =
    if leb f.expires_at (w.clock w.ticks)
    then out ≡ (ok (VerificationOutcome.expired f.customer_id f.case_id), ticked w)
    else IsRedeemed f w out

redeemed :
    (f : VerificationRequestLookup) (w : World) (out : Result StoredEvent × World)
    → Effect f.customer_id none none Actor.system Channel.verification_api
        (Payload.customer_verified VerificationMethod.token)
        (ticked w)
        out
    → IsRedeemed f w (
        after
          (λ _.
            gets (λ v. find_open_case_ids_for_customer f.customer_id (w.clock w.ticks) v.db)
            >>= λ ks. pure (VerificationOutcome.verified f.customer_id ks))
          out.0
          out.1)
unfolding ◌>>=◌
redeemed f w (err x, w') (inl same) = inl same
redeemed f w (err x, w') (inr (same, clash, _)) = inr (same, clash)
redeemed f w (ok e, w') (_, same, _, _, _) = rw same (refl, refl)

found-IsConfirmed :
    (found : Option VerificationRequestLookup) (w : World)
    → IsConfirmed found w (confirm_found found w)
unfolding confirm_found ◌>>=◌
found-IsConfirmed none w = refl
found-IsConfirmed (some f) w = elim (Bool-cases (leb f.expires_at (w.clock w.ticks))) [
  | inl late ↦ rw late refl
  | inr valid ↦ rw valid (
      redeemed f w _ (
        append-Effect f.customer_id none none Actor.system Channel.verification_api
          (Payload.customer_verified VerificationMethod.token) (ticked w)))
]

-- Confirming an unknown token changes nothing. An expired token is answered with its case, and
-- only the clock is read. A valid one adds the customer's verification to the log and is answered
-- with the customer's cases that are open then. Or it raises: then only the clock was read, or it
-- raises an IntegrityError, the log is as it was, and beyond the clock's reading the event's
-- number, time and id were taken.
pub confirm-IsConfirmed :
    (token : ℕ) (w : World)
    → IsConfirmed (find_verification_request_by_token token w.db) w (confirm_verification token w)
unfolding confirm_verification ◌>>=◌
confirm-IsConfirmed token w = found-IsConfirmed (find_verification_request_by_token token w.db) w
