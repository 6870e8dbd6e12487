-- ===== src/Policy/Checks.antt =====
-- policy/checks.py: the obligations, which action must satisfy which, and the check of each. A check
-- that is wired to an action it does not fit raises, and so does a comparison with a NaN.
pub mod Predicates
use Predicates.{
  deny_if_case_not_actionable, escalate_if_denial_loop, deny_if_unverified,
  deny_if_already_verified, deny_if_order_not_owned, deny_if_no_linked_order,
  deny_if_amount_unsound, deny_if_open_refund, deny_if_exceeds_remainder,
  approval_if_over_threshold,
}
use refundagent.Common.{ℕ, ◌==◌, ◌||◌, Bool, true, false, Option, none, some, List, [], ◌∷◌, ◌++◌}
use refundagent.Actions.{Action}
use refundagent.Domain.Result.{Result, ok, err, miswired_obligation}
use refundagent.Policy.Verdicts.{CheckResult, RuleContext}

pub data ObligationId : Type 0 where
  case_actionable denial_loop verified not_already_verified order_owned : ObligationId
  linked_order amount_sane no_open_refund within_remainder threshold : ObligationId

abbrev pub universal_obligations : List ObligationId
universal_obligations = ObligationId.case_actionable ∷ ObligationId.denial_loop ∷ []

abbrev pub canonical_order : List ObligationId
canonical_order =
    ObligationId.case_actionable ∷ ObligationId.denial_loop ∷ ObligationId.verified
    ∷ ObligationId.not_already_verified ∷ ObligationId.order_owned ∷ ObligationId.linked_order
    ∷ ObligationId.amount_sane ∷ ObligationId.no_open_refund ∷ ObligationId.within_remainder
    ∷ ObligationId.threshold ∷ []

-- `ACTION_OBLIGATIONS.get(type(action))`: the field `required`; the rationales are documentation.
unfoldable pub action_obligations? : Action → Option (List ObligationId)
action_obligations? Action.get_orders = some (ObligationId.verified ∷ [])
action_obligations? (Action.link_order o) =
    some (ObligationId.verified ∷ ObligationId.order_owned ∷ [])
action_obligations? (Action.propose_refund a) = some (
    ObligationId.verified ∷ ObligationId.linked_order ∷ ObligationId.amount_sane
    ∷ ObligationId.no_open_refund ∷ ObligationId.within_remainder ∷ ObligationId.threshold ∷ [])
action_obligations? Action.request_verification = some (ObligationId.not_already_verified ∷ [])
action_obligations? (Action.send_reply s b) = some []
action_obligations? (Action.escalate r) = some []
action_obligations? (Action.finish s) = some []

abbrev place : ObligationId → ℕ
place ObligationId.case_actionable = 0
place ObligationId.denial_loop = 1
place ObligationId.verified = 2
place ObligationId.not_already_verified = 3
place ObligationId.order_owned = 4
place ObligationId.linked_order = 5
place ObligationId.amount_sane = 6
place ObligationId.no_open_refund = 7
place ObligationId.within_remainder = 8
place ObligationId.threshold = 9

-- `obligation_id in applicable`
abbrev pub applies : List ObligationId → ObligationId → Bool
applies [] o = false
applies (x ∷ xs) o = place x == place o || applies xs o

-- `CHECKS[obligation_id](ctx, action)`, with the wrapper of each check.
unfoldable pub check : ObligationId → RuleContext → Action → Result CheckResult
unfolding deny_if_case_not_actionable escalate_if_denial_loop deny_if_unverified
    deny_if_already_verified deny_if_order_not_owned deny_if_no_linked_order deny_if_amount_unsound
    deny_if_open_refund deny_if_exceeds_remainder approval_if_over_threshold
check ObligationId.case_actionable ctx a = ok (deny_if_case_not_actionable ctx)
check ObligationId.denial_loop ctx a = ok (escalate_if_denial_loop ctx)
check ObligationId.verified ctx a = ok (deny_if_unverified ctx)
check ObligationId.not_already_verified ctx Action.request_verification =
    ok (deny_if_already_verified ctx)
check ObligationId.order_owned ctx (Action.link_order o) = ok (deny_if_order_not_owned ctx o)
check ObligationId.linked_order ctx (Action.propose_refund a) = ok (deny_if_no_linked_order ctx)
check ObligationId.amount_sane ctx (Action.propose_refund a) = deny_if_amount_unsound a
check ObligationId.no_open_refund ctx (Action.propose_refund a) = ok (deny_if_open_refund ctx)
check ObligationId.within_remainder ctx (Action.propose_refund a) = deny_if_exceeds_remainder ctx a
check ObligationId.threshold ctx (Action.propose_refund a) = approval_if_over_threshold ctx a
check _ ctx a = err miswired_obligation

-- `applicable_obligations`
unfoldable pub applicable_obligations : Action → List ObligationId
unfolding action_obligations?
applicable_obligations a = elim (action_obligations? a) [
  | none ↦ []
  | some required ↦ universal_obligations ++ required
]
