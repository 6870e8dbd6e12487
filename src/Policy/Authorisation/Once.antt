-- ===== src/Policy/Authorisation/Once.antt =====
-- A capability is spent once, on the case and the proposal that it was issued for.
use refundagent.Common.{false, ◌≡◌}
use refundagent.Actions.{Action}
use refundagent.Domain.Decimal.{Decimal}
use refundagent.Domain.Result.{Result, ok}
use refundagent.Policy.Authorisation.{Authorisation}
use refundagent.Policy.Verdicts.{RuleContext, Verdict, allow}

-- What policy grants on a proposal is a capability for the case and this proposal.
abbrev IsGrant : RuleContext → Action → Authorisation → Result Verdict → Type 0
IsGrant ctx a auth r =
    (auth.case_id ≡ ctx.case.case_id) × (auth.action ≡ a) × (auth.spent ≡ false) × (r ≡ ok allow)
