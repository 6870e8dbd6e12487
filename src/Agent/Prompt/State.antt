-- ===== src/Agent/Prompt/State.antt =====
-- agent/prompt.py: the structured state that the model is shown, and the actions on offer.
use refundagent.Common.{
  ◌==◌, Bool, true, false, not, ◌&&◌, Option, none, some, is_some, List, [], ◌∷◌, ◌++◌, map, filter,
  sort_by, contains,
}
use mathlib.Core.List.{foldl}
use refundagent.Common.Chars.{Chars, codes}
use refundagent.Common.Int.{ℤ}
use refundagent.Agent.Prompt.Untrusted.{bound_untrusted_text}
use refundagent.Domain.Enums.{OrderStatus, RefundStatus}
use refundagent.Domain.Payload.{Payload, ActionName}
use refundagent.Domain.Spelling.{order_name, action_value}
use refundagent.Domain.Texts.{CustomerId, OrderId}
use refundagent.Projection.Case.{CaseSummary}
use refundagent.Projection.Customer.{CustomerSummary}
use refundagent.Projection.Types.{StoredEvent, by_seq}
use refundagent.Store.Names.{name_leb}
use refundagent.Store.Rows.{OrderRow}

-- `OrderSeedView`: the fields of an order's row that are rendered.
pub record OrderSeedView : Type 0 where
  pub order_id : OrderId
  pub customer_id : CustomerId
  pub item : Chars
  pub total : ℤ
  pub status : OrderStatus

-- The views that `_load_loop_prompt_context` makes of the rows.
unfoldable pub order_seed_view : OrderRow → OrderSeedView
order_seed_view row = record {
  order_id = row.id;
  customer_id = row.customer_id;
  item = codes row.item;
  total = row.total;
  status = row.status;
}

-- `OrderView`, with the value of its `UntrustedField`; identifiers are the spelled ones from here on.
pub record OrderView : Type 0 where
  pub id : Chars
  pub item : Chars
  pub total : ℤ
  pub status : OrderStatus

pub record AgentState : Type 0 where
  pub verified : Bool
  pub orders : List OrderView
  pub orders_listed : Bool
  pub linked_order_id : Option Chars
  pub last_refund_status : Option RefundStatus
  pub reply_sent_after_last_refund : Bool
  pub menu : List Chars

-- The order ids of the latest `orders_listed` event.
abbrev listed_ids : List OrderId → StoredEvent → List OrderId
listed_ids latest e = elim e.payload [ Payload.orders_listed ids ↦ ids | _ ↦ latest ]

unfoldable pub disclosed_order_ids : List StoredEvent → List OrderId
disclosed_order_ids case_events = foldl listed_ids [] (sort_by by_seq case_events)

-- Where no id is disclosed, the filter keeps nothing either.
unfoldable pub scope_order_seeds_for_disclosure :
    List OrderSeedView → List OrderId → CustomerId → List OrderSeedView
scope_order_seeds_for_disclosure seeds disclosed c =
    filter (λ s. contains disclosed s.order_id && s.customer_id == c) seeds

abbrev pub when : Bool → ActionName → List Chars
when true a = action_value a ∷ []
when false a = []

-- The names of the actions on offer; the gate does not read them.
unfoldable pub available_actions : CaseSummary → CustomerSummary → List Chars
unfolding action_value
available_actions case customer =
    when (not customer.verified) ActionName.request_verification
    ++ (when (not case.orders_listed) ActionName.get_orders
        ++ (when (case.orders_listed && not (is_some case.linked_order_id)) ActionName.link_order
            ++ (when (is_some case.linked_order_id) ActionName.propose_refund
                ++ (when (is_some case.last_refund_status && not case.reply_sent_after_last_refund)
                      ActionName.send_reply
                    ++ (action_value ActionName.escalate ∷ action_value ActionName.finish ∷ [])))))

abbrev order_view : OrderSeedView → OrderView
order_view seed = record {
  id = order_name seed.order_id;
  item = bound_untrusted_text seed.item;
  total = seed.total;
  status = seed.status;
}

abbrev pub name_of : Option OrderId → Option Chars
name_of none = none
name_of (some o) = some (order_name o)

unfoldable pub build_agent_state :
    CaseSummary → CustomerSummary → List OrderSeedView → List Chars → AgentState
unfolding order_name
build_agent_state case customer seeds menu = record {
  verified = customer.verified;
  orders = map order_view (sort_by (λ a b. name_leb a.order_id b.order_id) seeds);
  orders_listed = case.orders_listed;
  linked_order_id = name_of case.linked_order_id;
  last_refund_status = case.last_refund_status;
  reply_sent_after_last_refund = case.reply_sent_after_last_refund;
  menu = menu;
}
