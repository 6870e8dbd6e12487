-- ===== src/Gate/Examples.antt =====
-- The theorem on an escalation's evidence at an agent's capability.
use refundagent.Common.{false, [], ◌≡◌, refl}
use refundagent.Actions.{Action}
use refundagent.Domain.Enums.{EscalationOrigin}
use refundagent.Domain.Result.{ok}
use refundagent.Domain.Texts.{text}
use refundagent.Gate.Operations.{escalation_reason, by_capability}
use refundagent.Gate.Operations.Escalation.{IsEvidence, escalation_reason-IsEvidence}
use refundagent.Policy.Authorisation.{Authorisation, spend}

abbrev capability : Authorisation
capability = record {
  case_id = 1;
  action = Action.escalate "broken lamp";
  obligations_discharged = [];
  spent = false;
}

reason_given :
    escalation_reason EscalationOrigin.agent 1 (by_capability capability) ≡ ok (text "broken lamp")
unfolding escalation_reason spend
reason_given = refl

escalation_reason-IsEvidence_example :
    IsEvidence EscalationOrigin.agent 1 (by_capability capability) (text "broken lamp")
escalation_reason-IsEvidence_example =
    escalation_reason-IsEvidence EscalationOrigin.agent 1 (by_capability capability)
      (text "broken lamp") reason_given
