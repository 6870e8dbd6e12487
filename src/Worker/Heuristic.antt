-- ===== src/Worker/Heuristic.antt =====
-- prompt_codec.py and heuristic.py of the worker, from the request's document on. Where Python would
-- read a field that is missing or of another type, there is an error.
use refundagent.Common.{Bool, not, Option, none, some, List, [], ◌∷◌, if◌then◌else◌}
use refundagent.Common.Chars.{Chars, codes, same_text}
use refundagent.Common.Int.{ℤ}
use refundagent.Common.Json.{Json, Fields}
use refundagent.Agent.Models.{
  action_document, finish_with, escalate_with, link_with, propose_with, reply_with, no_order_reason,
  missing_order_reason, pending_summary, resolved_summary,
}
use refundagent.Agent.Serialization.{
  member, as_bool, as_text, as_text_or_null, as_list, each, parse_money, field_of,
}
use refundagent.Domain.Payload.{ActionName}
use refundagent.Domain.Result.{Result, ok, err, ◌>>=◌, or_raise, value_error, invalid_operation}
use refundagent.Domain.Spelling.{action_value, format_money}

-- `PromptStateData`; an order stays the document that it is.
pub record PromptStateData : Type 0 where
  pub verified : Bool
  pub orders : List Json
  pub orders_listed : Bool
  pub linked_order_id : Option Chars
  pub last_refund_status : Option Chars
  pub reply_sent_after_last_refund : Bool
  pub menu : List Chars

pub record PromptData : Type 0 where
  pub text : Chars
  pub state : PromptStateData

unfoldable pub decode_state : Json → Result PromptStateData
unfolding field_of each
decode_state state = do
  verified_field ← member (codes "verified") state
  verified ← as_bool verified_field
  orders_field ← member (codes "orders") state
  orders ← as_list (λ order. ok order) orders_field
  listed_field ← member (codes "orders_listed") state
  listed ← as_bool listed_field
  linked_field ← member (codes "linked_order_id") state
  linked ← as_text_or_null linked_field
  status_field ← member (codes "last_refund_status") state
  status ← as_text_or_null status_field
  replied_field ← member (codes "reply_sent_after_last_refund") state
  replied ← as_bool replied_field
  menu_field ← member (codes "menu") state
  menu ← as_list as_text menu_field
  ok (record {
    verified = verified;
    orders = orders;
    orders_listed = listed;
    linked_order_id = linked;
    last_refund_status = status;
    reply_sent_after_last_refund = replied;
    menu = menu;
  })

-- `decode_prompt`
unfoldable pub decode_prompt : Json → Result PromptData
unfolding decode_state
decode_prompt document = do
  state_field ← member (codes "state") document
  state ← decode_state state_field
  text_field ← member (codes "text") document
  text ← as_text text_field
  ok (record { text = text; state = state })

abbrev text_member : Chars → Json → Result Chars
text_member key order = do value ← member key order; as_text value

-- `_order_id_to_link`, on the first order and on all of them
unfoldable pub worker_order_id_to_link : Json → List Json → Result Chars
unfolding field_of same_text
worker_order_id_to_link first [] = text_member (codes "id") first
worker_order_id_to_link first (order ∷ orders) =
    let rest = worker_order_id_to_link first orders in
    do
      status ← text_member (codes "status") order
      if same_text status (codes "delivered_damaged") then text_member (codes "id") order else rest

abbrev amount_of : Json → Result (Option ℤ)
amount_of order = do
  total ← text_member (codes "total") order
  amount ← or_raise (parse_money total) invalid_operation
  ok (some amount)

-- `_linked_order_total`, for an order that is linked
unfoldable pub worker_linked_order_total : Chars → List Json → Result (Option ℤ)
unfolding field_of same_text parse_money
worker_linked_order_total linked [] = ok none
worker_linked_order_total linked (order ∷ orders) =
    let rest = worker_linked_order_total linked orders in
    do id ← text_member (codes "id") order; if same_text id linked then amount_of order else rest

-- `_refund_reply_by_status` of the worker, on the status's text
unfoldable pub worker_refund_reply_by_status : Chars → Result (Chars × Chars)
unfolding same_text
worker_refund_reply_by_status s =
    if same_text s (codes "pending_approval")
    then ok
        (codes "Refund pending approval", codes "Your refund request is pending operator approval.")
    else if same_text s (codes "approved")
    then ok (
      codes "Refund approved",
      codes "Your refund has been approved and will be processed shortly.",
    )
    else if same_text s (codes "executed")
    then ok (codes "Refund processed", codes "Your refund has been processed successfully.")
    else if same_text s (codes "rejected")
    then ok (codes "Refund update", codes "Your refund request was not approved.")
    else if same_text s (codes "expired")
    then ok (
      codes "Refund approval expired",
      codes "The approval window for your refund request has expired.",
    )
    else err value_error

abbrev pub worker_link_first : List Json → Result Json
worker_link_first [] = ok (escalate_with no_order_reason)
worker_link_first (order ∷ orders) = do
  id ← worker_order_id_to_link order (order ∷ orders)
  ok (link_with id)

abbrev pub worker_propose : Chars → Option ℤ → Json
worker_propose linked none = escalate_with (missing_order_reason linked)
worker_propose linked (some total) = propose_with (format_money total)

abbrev pub worker_reply : Bool → Chars → Result Json
worker_reply replied status =
    if not replied
    then (do texts ← worker_refund_reply_by_status status; ok (reply_with texts))
    else ok (finish_with resolved_summary)

abbrev pub worker_after_refund : PromptStateData → Chars → Option Chars → Result Json
worker_after_refund state linked none = do
  total ← worker_linked_order_total linked state.orders
  ok (worker_propose linked total)
worker_after_refund state linked (some status) =
    if same_text status (codes "pending_approval")
    then ok (finish_with pending_summary)
    else worker_reply state.reply_sent_after_last_refund status

abbrev pub worker_after_listing : PromptStateData → Option Chars → Result Json
worker_after_listing state none = worker_link_first state.orders
worker_after_listing state (some linked) = worker_after_refund state linked state.last_refund_status

-- `_decide_heuristic_action` of the worker
unfoldable pub worker_decide_heuristic_action : PromptStateData → Result Json
unfolding worker_order_id_to_link worker_linked_order_total worker_refund_reply_by_status
    action_value format_money same_text
worker_decide_heuristic_action state =
    if not state.verified
    then ok (action_document ActionName.request_verification Fields.end)
    else if not state.orders_listed
    then ok (action_document ActionName.get_orders Fields.end)
    else worker_after_listing state state.linked_order_id

-- `propose_heuristic`, between the documents of the request and of the response
unfoldable pub propose_heuristic : Json → Result Json
unfolding decode_prompt worker_decide_heuristic_action
propose_heuristic document = do
  prompt ← decode_prompt document
  worker_decide_heuristic_action prompt.state
