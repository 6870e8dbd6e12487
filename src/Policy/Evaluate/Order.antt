-- ===== src/Policy/Evaluate/Order.antt =====
-- The order in which `evaluate` asks its checks, written out for each action.
use refundagent.Common.{◌≡◌, refl, ap, ◌∙◌, List, [], ◌∷◌}
use refundagent.Actions.{Action}
use refundagent.Domain.Decimal.{Decimal}
use refundagent.Domain.Result.{Result, ok, err}
use refundagent.Policy.Checks.{action_obligations?, check}
use refundagent.Policy.Checks.Predicates.{
  deny_if_case_not_actionable, escalate_if_denial_loop, deny_if_unverified,
  deny_if_already_verified, deny_if_order_not_owned, deny_if_no_linked_order,
  deny_if_amount_unsound, deny_if_open_refund, deny_if_exceeds_remainder,
  approval_if_over_threshold,
}
use refundagent.Policy.Evaluate.{decide, run_checks, evaluate}
use refundagent.Policy.Verdicts.{CheckResult, continues, stop, Verdict, allow, block, RuleContext}

module _ (ctx : RuleContext) where
  -- What a proposed refund is asked, a customer's order and the amount after the customer.
  abbrev refund_questions : Decimal → List (Result CheckResult)
  refund_questions amount =
      ok (deny_if_unverified ctx)
      ∷ ok (deny_if_no_linked_order ctx)
      ∷ deny_if_amount_unsound amount
      ∷ ok (deny_if_open_refund ctx)
      ∷ deny_if_exceeds_remainder ctx amount
      ∷ approval_if_over_threshold ctx amount
      ∷ []

  abbrev own_questions : Action → List (Result CheckResult)
  own_questions Action.get_orders = ok (deny_if_unverified ctx) ∷ []
  own_questions (Action.link_order o) =
      ok (deny_if_unverified ctx) ∷ ok (deny_if_order_not_owned ctx o) ∷ []
  own_questions (Action.propose_refund amount) = refund_questions amount
  own_questions Action.request_verification = ok (deny_if_already_verified ctx) ∷ []
  own_questions (Action.send_reply s b) = []
  own_questions (Action.escalate r) = []
  own_questions (Action.finish s) = []

  -- The case comes first, then the loop of denials, then what the action itself is asked.
  abbrev pub questions : Action → List (Result CheckResult)
  questions a =
      ok (deny_if_case_not_actionable ctx) ∷ ok (escalate_if_denial_loop ctx) ∷ own_questions a

-- The answer of the first check that stops or raises, and the permission when none does.
abbrev pub first_answer : List (Result CheckResult) → Result Verdict
first_answer [] = ok allow
first_answer (err e ∷ rest) = err e
first_answer (ok continues ∷ rest) = first_answer rest
first_answer (ok (stop b) ∷ rest) = ok (block b)

decide-first :
    (r : Result CheckResult) (rest : List (Result CheckResult))
    → decide r (first_answer rest) ≡ first_answer (r ∷ rest)
decide-first (err e) rest = refl
decide-first (ok continues) rest = refl
decide-first (ok (stop b)) rest = refl

-- The checks in a row, as the loop of `evaluate` goes through them.
abbrev decided : List (Result CheckResult) → Result Verdict
decided [] = ok allow
decided (r ∷ rest) = decide r (decided rest)

decided-first : (rs : List (Result CheckResult)) → decided rs ≡ first_answer rs
decided-first [] = refl
decided-first (r ∷ rs) = ap (decide r) (decided-first rs) ∙ decide-first r rs

asked : (ctx : RuleContext) (a : Action) → evaluate ctx a ≡ decided (questions ctx a)
unfolding evaluate run_checks action_obligations? check
asked ctx Action.get_orders = refl
asked ctx (Action.link_order o) = refl
asked ctx (Action.propose_refund amount) = refl
asked ctx Action.request_verification = refl
asked ctx (Action.send_reply s b) = refl
asked ctx (Action.escalate r) = refl
asked ctx (Action.finish s) = refl

-- The verdict on an action is the answer of the first check in a row that stops or raises, and the
-- permission when none does. The row starts with the case and the loop of denials; then a refund
-- is asked for the customer's verification, the linked order, the amount, the open refund, the
-- remainder and the threshold, in this order, linking for the verification and the owner, listing
-- for the verification, and requesting a verification for a verified customer, and the other
-- actions for nothing more.
pub evaluate-first_answer :
    (ctx : RuleContext) (a : Action) → evaluate ctx a ≡ first_answer (questions ctx a)
evaluate-first_answer ctx a = asked ctx a ∙ decided-first (questions ctx a)
