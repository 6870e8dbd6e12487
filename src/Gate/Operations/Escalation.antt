-- ===== src/Gate/Operations/Escalation.antt =====
-- The evidence that an escalation needs.
use refundagent.Common.{
  String, false, none, some, ◌≡◌, refl, arith, eq_of_==, Option-cases, inl, inr,
}
use refundagent.Actions.{Action}
use refundagent.Domain.Enums.{EscalationOrigin}
use refundagent.Domain.Result.{ok}
use refundagent.Domain.Texts.{CaseId, Text, text}
use refundagent.Gate.Operations.{Evidence, escalation_reason}
use refundagent.Policy.Authorisation.{Authorisation, spend}
use refundagent.Policy.Verdicts.{ForceEscalate}

-- What stands behind an escalation's reason, by its origin.
abbrev pub IsEvidence : EscalationOrigin → CaseId → Evidence → Text → Type 0
IsEvidence EscalationOrigin.agent k e reason =
    (auth : Authorisation) × (words : String) × (e.authorisation ≡ some auth)
    × (auth.action ≡ Action.escalate words)
    × (auth.case_id ≡ k)
    × (auth.spent ≡ false)
    × (reason ≡ text words)
    × (e.force_escalate ≡ none)
    × (e.reason ≡ none)
IsEvidence EscalationOrigin.policy k e reason =
    (f : ForceEscalate) × (e.force_escalate ≡ some f)
    × (reason ≡ f.reason)
    × (e.authorisation ≡ none)
    × (e.reason ≡ none)
IsEvidence _ k e reason =
    (e.reason ≡ some reason) × (e.authorisation ≡ none) × (e.force_escalate ≡ none)

module _ (k : CaseId) (e : Evidence) (reason : Text)
    (h : escalation_reason EscalationOrigin.agent k e ≡ ok reason) (auth : Authorisation)
    (given : e.authorisation ≡ some auth) where
  by_capability_for : (a : Action) → auth.action ≡ a → IsEvidence EscalationOrigin.agent k e reason
  unfolding escalation_reason spend
  by_capability_for (Action.escalate words) same = (
    auth,
    words,
    given,
    same,
    ground (arith, h, given, same, eq_of_== k auth.case_id),
    ground (arith, h, given, same),
    ground (arith, h, given, same),
    ground (arith, h, given, same),
    ground (arith, h, given, same),
  )
  by_capability_for (Action.propose_refund amount) same = ground (arith, h, given, same)
  by_capability_for Action.get_orders same = ground (arith, h, given, same)
  by_capability_for (Action.link_order o) same = ground (arith, h, given, same)
  by_capability_for (Action.send_reply s b) same = ground (arith, h, given, same)
  by_capability_for Action.request_verification same = ground (arith, h, given, same)
  by_capability_for (Action.finish summary) same = ground (arith, h, given, same)

by_agent :
    (k : CaseId) (e : Evidence) (reason : Text)
    → escalation_reason EscalationOrigin.agent k e ≡ ok reason
    → IsEvidence EscalationOrigin.agent k e reason
unfolding escalation_reason spend
by_agent k e reason h = elim (Option-cases e.authorisation) [
  | inl none_given ↦ ground arith
  | inr (auth, given) ↦ by_capability_for k e reason h auth given auth.action refl
]

-- An escalation that gets a reason has the evidence of its origin and neither of the other two
-- kinds: the agent's an unspent capability for the case and for an `escalate` action with this
-- reason, policy's a forced escalation with this reason, and the limits' and the model failure's
-- the bare reason.
pub escalation_reason-IsEvidence :
    (origin : EscalationOrigin) (k : CaseId) (e : Evidence) (reason : Text)
    → escalation_reason origin k e ≡ ok reason
    → IsEvidence origin k e reason
unfolding escalation_reason
escalation_reason-IsEvidence EscalationOrigin.agent k e reason h = by_agent k e reason h
escalation_reason-IsEvidence EscalationOrigin.policy k e reason h = ground arith
escalation_reason-IsEvidence EscalationOrigin.step_limit k e reason h = ground arith
escalation_reason-IsEvidence EscalationOrigin.parse_limit k e reason h = ground arith
escalation_reason-IsEvidence EscalationOrigin.model_failure k e reason h = ground arith
