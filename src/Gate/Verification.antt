-- ===== src/Gate/Verification.antt =====
-- gate/verification.py and the token lookup of repositories/cases.py.
pub mod Effect
use refundagent.Common.{ℕ, ◌==◌, leb, Bool, false, Option, none, some, List, find?, if◌then◌else◌}
use refundagent.Domain.Enums.{Actor, Channel, VerificationMethod}
use refundagent.Domain.Payload.{Payload}
use refundagent.Domain.Texts.{CustomerId, CaseId, Instant}
use refundagent.Gate.Common.{find_open_case_ids_for_customer}
use refundagent.Projection.Types.{StoredEvent}
use refundagent.Store.Append.{append_canonical_event}
use refundagent.Store.Rows.{Database}
use refundagent.Store.Session.{Tx, pure, gets, now, ◌>>=◌, ◌>>◌}

-- The fields of `VerificationRequestLookup` that are read.
pub record VerificationRequestLookup : Type 0 where
  pub case_id : CaseId
  pub customer_id : CustomerId
  pub token : ℕ
  pub expires_at : Instant

abbrev pub issues : ℕ → Payload → Bool
issues token (Payload.verification_requested t expires_at) = t == token
issues token _ = false

abbrev lookup_of : StoredEvent → Option CaseId → Payload → Option VerificationRequestLookup
lookup_of e (some k) (Payload.verification_requested token expires_at) =
    some
      (record { case_id = k; customer_id = e.customer_id; token = token; expires_at = expires_at })
lookup_of e _ _ = none

abbrev lookup_of_row : Option StoredEvent → Option VerificationRequestLookup
lookup_of_row none = none
lookup_of_row (some e) = lookup_of e e.case_id e.payload

unfoldable pub find_verification_request_by_token : ℕ → Database → Option VerificationRequestLookup
find_verification_request_by_token token db =
    lookup_of_row (find? (λ e. issues token e.payload) db.events)

pub data VerificationOutcome : Type 0 where
  not_found : VerificationOutcome
  -- customer_id, issuing_case_id
  expired : CustomerId → CaseId → VerificationOutcome
  -- customer_id, open_case_ids
  verified : CustomerId → List CaseId → VerificationOutcome

-- `confirm_verification` on what the lookup found.
unfoldable pub confirm_found : Option VerificationRequestLookup → Tx VerificationOutcome
confirm_found none = pure VerificationOutcome.not_found
confirm_found (some found) = do
  at ← now
  if leb found.expires_at at
      then pure (VerificationOutcome.expired found.customer_id found.case_id)
      else (do
        append_canonical_event found.customer_id none none Actor.system Channel.verification_api
            (Payload.customer_verified VerificationMethod.token)
        open_case_ids ← gets (λ w. find_open_case_ids_for_customer found.customer_id at w.db)
        pure (VerificationOutcome.verified found.customer_id open_case_ids))

unfoldable pub confirm_verification : ℕ → Tx VerificationOutcome
unfolding confirm_found find_verification_request_by_token
confirm_verification token = do
  found ← gets (λ w. find_verification_request_by_token token w.db)
  confirm_found found
