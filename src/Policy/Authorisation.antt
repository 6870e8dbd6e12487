-- ===== src/Policy/Authorisation.antt =====
-- policy/authorisation.py: a capability for one effect on one proposal. The source compares the
-- proposal's object with the capability's; the model has values and no objects, and compares these.
pub mod Once
use text.Mathlib.Text.{◌==◌ as str_eq}
use refundagent.Common.{Bool, true, false, not, ◌==◌, ◌&&◌, ◌||◌, List, if◌then◌else◌}
use refundagent.Common.Int.{eq_ℤ}
use refundagent.Actions.{Action, OrderRef}
use refundagent.Domain.Decimal.{Decimal}
use refundagent.Domain.Result.{Result, ok, err, already_spent, authorisation_mismatch}
use refundagent.Domain.Texts.{CaseId}
use refundagent.Policy.Checks.{ObligationId}

pub record Authorisation : Type 0 where
  pub case_id : CaseId
  pub action : Action
  pub obligations_discharged : List ObligationId
  pub spent : Bool

abbrev pub same_sign : Bool → Bool → Bool
same_sign true b = b
same_sign false b = not b

abbrev pub same_decimal : Decimal → Decimal → Bool
same_decimal Decimal.nan Decimal.nan = true
same_decimal (Decimal.infinity s) (Decimal.infinity t) = same_sign s t
same_decimal (Decimal.finite s c e) (Decimal.finite t d f) = same_sign s t && (c == d && eq_ℤ e f)
same_decimal _ _ = false

abbrev pub same_ref : OrderRef → OrderRef → Bool
same_ref (OrderRef.named o) (OrderRef.named p) = o == p
same_ref (OrderRef.unnamed s) (OrderRef.unnamed t) = str_eq s t
same_ref _ _ = false

unfoldable pub same_action : Action → Action → Bool
same_action Action.get_orders Action.get_orders = true
same_action (Action.link_order o) (Action.link_order p) = same_ref o p
same_action (Action.propose_refund d) (Action.propose_refund e) = same_decimal d e
same_action (Action.send_reply s b) (Action.send_reply t c) = str_eq s t && str_eq b c
same_action Action.request_verification Action.request_verification = true
same_action (Action.escalate r) (Action.escalate s) = str_eq r s
same_action (Action.finish s) (Action.finish t) = str_eq s t
same_action _ _ = false

-- The capability after `spend`, or what `spend` raises.
unfoldable pub spend : Authorisation → CaseId → Action → Result Authorisation
unfolding same_action
spend auth case action =
    if auth.spent
    then err already_spent
    else if not (case == auth.case_id) || not (same_action action auth.action)
    then err authorisation_mismatch
    else ok (record auth { spent = true })
