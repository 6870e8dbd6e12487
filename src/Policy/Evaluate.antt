-- ===== src/Policy/Evaluate.antt =====
-- policy/policy.py: the first decisive verdict in the canonical order, and the capability that an
-- allowed proposal gets.
pub mod Spec
pub mod Permits
pub mod Refunds
pub mod Order
use refundagent.Common.{Bool, false, Option, none, some, List, [], ◌∷◌, ◌++◌, if◌then◌else◌}
use refundagent.Actions.{Action}
use refundagent.Domain.Result.{Result, ok, err}
use refundagent.Domain.Texts.{text}
use refundagent.Policy.Authorisation.{Authorisation}
use refundagent.Policy.Checks.{
  ObligationId, universal_obligations, canonical_order, action_obligations?, applies, check,
  applicable_obligations,
}
use refundagent.Policy.Verdicts.{
  Blocking, Deny, CheckResult, continues, stop, Verdict, allow, block, RuleContext,
}

-- `if result is not CONTINUE: return result`
abbrev pub decide : Result CheckResult → Result Verdict → Result Verdict
decide (err e) rest = err e
decide (ok continues) rest = rest
decide (ok (stop b)) rest = ok (block b)

-- The loop of `evaluate` over the obligations in order.
unfoldable pub run_checks :
    List ObligationId → List ObligationId → RuleContext → Action → Result Verdict
run_checks applicable [] ctx a = ok allow
run_checks applicable (o ∷ os) ctx a =
    let rest = run_checks applicable os ctx a in
    if applies applicable o then decide (check o ctx a) rest else rest

abbrev pub exhausted : Deny
exhausted = record {
  rule = "R_EXHAUSTED";
  agent_reason = text "No rule produced a verdict.";
  customer_reason = text "We cannot process this request automatically.";
}

unfoldable pub evaluate : RuleContext → Action → Result Verdict
unfolding run_checks action_obligations? check
evaluate ctx a = elim (action_obligations? a) [
  | none ↦ ok (block (Blocking.deny exhausted))
  | some required ↦ run_checks (universal_obligations ++ required) canonical_order ctx a
]

pub data Authorised : Type 0 where
  authorised : Authorisation → Authorised
  blocked : Blocking → Authorised

abbrev pub grant : RuleContext → Action → Verdict → Authorised
grant ctx a allow = authorised (record {
  case_id = ctx.case.case_id;
  action = a;
  obligations_discharged = applicable_obligations a;
  spent = false;
})
grant ctx a (block b) = blocked b

abbrev pub granted : RuleContext → Action → Result Verdict → Result Authorised
granted ctx a (ok v) = ok (grant ctx a v)
granted ctx a (err e) = err e

unfoldable pub authorise : RuleContext → Action → Result Authorised
unfolding evaluate applicable_obligations
authorise ctx a = granted ctx a (evaluate ctx a)
