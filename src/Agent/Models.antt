-- ===== src/Agent/Models.antt =====
-- agent/models.py: the heuristic model, which decides from the structured state alone. An action is the
-- document that the model's JSON text stands for.
pub mod Offered
use refundagent.Common.{
  ℕ, Bool, true, false, not, Option, none, some, List, [], ◌∷◌, ◌++◌, if◌then◌else◌,
}
use refundagent.Common.Chars.{Chars, codes, same_text}
use refundagent.Common.Int.{ℤ}
use refundagent.Common.Json.{Json, Fields}
use refundagent.Agent.Prompt.State.{AgentState, OrderView}
use refundagent.Domain.Enums.{OrderStatus, RefundStatus}
use refundagent.Domain.Payload.{ActionName}
use refundagent.Domain.Spelling.{action_value, format_money}

-- `{"action": name, **fields}`
abbrev pub action_document : ActionName → Fields → Json
action_document name fields =
    Json.obj (Fields.field (codes "action") (Json.str (action_value name)) fields)

abbrev pub with_text : Chars → Chars → Fields
with_text key value = Fields.field key (Json.str value) Fields.end

-- `_REFUND_REPLY_BY_STATUS`
unfoldable pub refund_reply_by_status : RefundStatus → Chars × Chars
refund_reply_by_status RefundStatus.pending_approval =
    (codes "Refund pending approval", codes "Your refund request is pending operator approval.")
refund_reply_by_status RefundStatus.approved =
    (codes "Refund approved", codes "Your refund has been approved and will be processed shortly.")
refund_reply_by_status RefundStatus.executed =
    (codes "Refund processed", codes "Your refund has been processed successfully.")
refund_reply_by_status RefundStatus.rejected =
    (codes "Refund update", codes "Your refund request was not approved.")
refund_reply_by_status RefundStatus.expired = (
  codes "Refund approval expired",
  codes "The approval window for your refund request has expired.",
)

abbrev pub is_damaged : OrderStatus → Bool
is_damaged OrderStatus.delivered_damaged = true
is_damaged _ = false

-- `_order_id_to_link`, on the first order, which it falls back to, and on all of them.
unfoldable pub order_id_to_link : OrderView → List OrderView → Chars
order_id_to_link first [] = first.id
order_id_to_link first (order ∷ orders) =
    if is_damaged order.status then order.id else order_id_to_link first orders

-- `_linked_order_total`, for an order that is linked
unfoldable pub linked_order_total : Chars → List OrderView → Option ℤ
linked_order_total linked [] = none
linked_order_total linked (order ∷ orders) =
    if same_text order.id linked then some order.total else linked_order_total linked orders

abbrev pub finish_with : Chars → Json
finish_with summary = action_document ActionName.finish (with_text (codes "summary") summary)

abbrev pub escalate_with : Chars → Json
escalate_with reason = action_document ActionName.escalate (with_text (codes "reason") reason)

abbrev pub link_with : Chars → Json
link_with order = action_document ActionName.link_order (with_text (codes "order_id") order)

abbrev pub propose_with : Chars → Json
propose_with amount = action_document ActionName.propose_refund (with_text (codes "amount") amount)

abbrev pub reply_with : Chars × Chars → Json
reply_with (subject, body) =
    action_document ActionName.send_reply
      (Fields.field (codes "subject") (Json.str subject) (with_text (codes "body") body))

abbrev pub no_order_reason : Chars
no_order_reason = codes "heuristic link_order requires at least one order in state"

-- The f-string quotes the identifier, in which `repr` has nothing to escape.
abbrev pub missing_order_reason : Chars → Chars
missing_order_reason linked =
    codes "linked order '" ++ (linked ++ codes "' missing from state.orders")

abbrev pub pending_summary : Chars
pending_summary = codes "Refund submitted for operator approval."

abbrev pub resolved_summary : Chars
resolved_summary = codes "Case resolved."

abbrev pub link_first : List OrderView → Json
link_first [] = escalate_with no_order_reason
link_first (order ∷ orders) = link_with (order_id_to_link order (order ∷ orders))

abbrev pub propose_total : Chars → Option ℤ → Json
propose_total linked none = escalate_with (missing_order_reason linked)
propose_total linked (some total) = propose_with (format_money total)

abbrev pub reply_or_finish : Bool → RefundStatus → Json
reply_or_finish replied status =
    if not replied then reply_with (refund_reply_by_status status) else finish_with resolved_summary

abbrev pub after_refund : AgentState → Chars → Option RefundStatus → Json
after_refund state linked none = propose_total linked (linked_order_total linked state.orders)
after_refund state linked (some RefundStatus.pending_approval) = finish_with pending_summary
after_refund state linked (some status) = reply_or_finish state.reply_sent_after_last_refund status

abbrev pub after_listing : AgentState → Option Chars → Json
after_listing state none = link_first state.orders
after_listing state (some linked) = after_refund state linked state.last_refund_status

-- `_decide_heuristic_action`
unfoldable pub decide_heuristic_action : AgentState → Json
unfolding order_id_to_link linked_order_total refund_reply_by_status action_value format_money
    same_text
decide_heuristic_action state =
    if not state.verified
    then action_document ActionName.request_verification Fields.end
    else if not state.orders_listed
    then action_document ActionName.get_orders Fields.end
    else after_listing state state.linked_order_id
