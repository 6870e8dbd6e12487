-- ===== src/Agent/Models/Offered.antt =====
-- The heuristic model proposes only what the prompt offers.
use refundagent.Common.{Bool, true, false, Option, none, some, List, [], ◌∷◌, any, ◌≡◌, refl}
use refundagent.Common.Chars.{Chars, same_text}
use refundagent.Common.Json.{Json, Fields}
use refundagent.Agent.Models.{
  decide_heuristic_action, propose_total, link_first, linked_order_total,
}
use refundagent.Agent.Prompt.Build.{prompt_state}
use refundagent.Agent.Prompt.State.{
  AgentState, OrderSeedView, OrderView, available_actions, build_agent_state, name_of,
}
use refundagent.Domain.Enums.{RefundStatus}
use refundagent.Common.Int.{ℤ}
use refundagent.Domain.Texts.{OrderId}
use refundagent.Domain.Spelling.{action_value, order_name}
use refundagent.Projection.Case.{CaseSummary}
use refundagent.Projection.Customer.{CustomerSummary}
use refundagent.Projection.Types.{StoredEvent}

-- The document's action is one of the names.
abbrev pub Offers : List Chars → Json → Type 0
Offers menu (Json.obj (Fields.field key (Json.str name) rest)) = any (same_text name) menu ≡ true
Offers menu _ = ⊥

module _ (case : CaseSummary) (customer : CustomerSummary) (os : List OrderView) where
  -- The state of a prompt, by what the decision and the menu depend on.
  abbrev menu_of : Bool → Bool → Option OrderId → Option RefundStatus → Bool → List Chars
  menu_of v l k s r =
      available_actions
        (record case {
          orders_listed = l;
          linked_order_id = k;
          last_refund_status = s;
          reply_sent_after_last_refund = r;
        })
        (record customer { verified = v })

  abbrev state_of : Bool → Bool → Option OrderId → Option RefundStatus → Bool → AgentState
  state_of v l k s r = record {
    verified = v;
    orders = os;
    orders_listed = l;
    linked_order_id = name_of k;
    last_refund_status = s;
    reply_sent_after_last_refund = r;
    menu = menu_of v l k s r;
  }

  Offers-total :
      (l : Bool) (o : OrderId) (r : Bool) (linked : Chars) (total : Option ℤ)
      → Offers (menu_of true l (some o) none r) (propose_total linked total)
  unfolding available_actions action_value same_text
  Offers-total true o r linked none = refl
  Offers-total true o r linked (some t) = refl
  Offers-total false o r linked none = refl
  Offers-total false o r linked (some t) = refl

  Offers-link :
      (s : Option RefundStatus) (r : Bool) (orders : List OrderView)
      → Offers (menu_of true true none s r) (link_first orders)
  unfolding available_actions action_value same_text
  Offers-link none r [] = refl
  Offers-link (some s) true [] = refl
  Offers-link (some s) false [] = refl
  Offers-link s r (order ∷ orders) = refl

  Offers-decision :
      (v l : Bool) (k : Option OrderId) (s : Option RefundStatus) (r : Bool)
      → Offers (menu_of v l k s r) (decide_heuristic_action (state_of v l k s r))
  unfolding decide_heuristic_action available_actions action_value same_text
  Offers-decision false l k s r = refl
  Offers-decision true false k s r = refl
  Offers-decision true true none s r = Offers-link s r os
  Offers-decision true true (some o) none r =
      Offers-total true o r (order_name o) (linked_order_total (order_name o) os)
  Offers-decision true true (some o) (some RefundStatus.pending_approval) true = refl
  Offers-decision true true (some o) (some RefundStatus.pending_approval) false = refl
  Offers-decision true true (some o) (some RefundStatus.approved) true = refl
  Offers-decision true true (some o) (some RefundStatus.approved) false = refl
  Offers-decision true true (some o) (some RefundStatus.executed) true = refl
  Offers-decision true true (some o) (some RefundStatus.executed) false = refl
  Offers-decision true true (some o) (some RefundStatus.rejected) true = refl
  Offers-decision true true (some o) (some RefundStatus.rejected) false = refl
  Offers-decision true true (some o) (some RefundStatus.expired) true = refl
  Offers-decision true true (some o) (some RefundStatus.expired) false = refl

-- The action that the heuristic model decides on is one of the prompt's menu, for every case,
-- customer and history that the prompt is built from.
pub heuristic_offered :
    (case : CaseSummary) (customer : CustomerSummary) (events : List StoredEvent)
    (seeds : List OrderSeedView)
    → Offers
        (prompt_state case customer events seeds).menu
        (decide_heuristic_action (prompt_state case customer events seeds))
unfolding prompt_state build_agent_state
heuristic_offered case customer events seeds =
    Offers-decision case customer (prompt_state case customer events seeds).orders customer.verified
      case.orders_listed case.linked_order_id case.last_refund_status
      case.reply_sent_after_last_refund
