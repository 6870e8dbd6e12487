-- ===== src/Worker/Agreement.antt =====
-- The isolated worker decides as the application's heuristic model does.
use refundagent.Common.{
  Bool, true, false, not, Option, none, some, List, [], ◌∷◌, map, ◌≡◌, refl, if◌then◌else◌,
}
use refundagent.Common.Chars.{Chars, codes, same_text}
use refundagent.Common.Int.{ℤ}
use refundagent.Common.Json.{Json, items}
use refundagent.Agent.Models.{
  decide_heuristic_action, order_id_to_link, linked_order_total, refund_reply_by_status,
  propose_total, is_damaged, link_first, reply_or_finish, after_refund, after_listing,
}
use refundagent.Agent.Prompt.Build.{Prompt, order_document, state_document, refund_status_text}
use refundagent.Agent.Prompt.State.{AgentState, OrderView}
use refundagent.Agent.Serialization.{prompt_document, field_of, as_text, each}
use refundagent.Agent.Serialization.RoundTrip.{parse-format_money, each-items, text_or_null}
use refundagent.Domain.Enums.{OrderStatus, RefundStatus}
use refundagent.Domain.Result.{Result, ok, ◌>>=◌}
use refundagent.Domain.Spelling.{order_status_value, refund_status_value}
use refundagent.Worker.Heuristic.{
  PromptStateData, decode_state, decode_prompt, worker_order_id_to_link, worker_linked_order_total,
  worker_refund_reply_by_status, worker_decide_heuristic_action, propose_heuristic, worker_propose,
  worker_link_first, worker_reply, worker_after_refund, worker_after_listing,
}

damaged :
    (s : OrderStatus) → same_text (order_status_value s) (codes "delivered_damaged") ≡ is_damaged s
unfolding same_text order_status_value
damaged OrderStatus.delivered = refl
damaged OrderStatus.delivered_damaged = refl
damaged OrderStatus.shipped = refl

if_ok : {A : Type 0} (b : Bool) (x y : A) → (if b then ok x else ok y) ≡ ok (if b then x else y)
if_ok true x y = refl
if_ok false x y = refl

links :
    (first : OrderView) (orders : List OrderView)
    → worker_order_id_to_link (order_document first) (map order_document orders)
      ≡ ok (order_id_to_link first orders)
unfolding worker_order_id_to_link order_id_to_link order_document field_of same_text
links first [] = refl
links first (order ∷ orders) =
    rw (damaged order.status, links first orders) (if_ok (is_damaged order.status) _ _)

totals :
    (linked : Chars) (orders : List OrderView)
    → worker_linked_order_total linked (map order_document orders)
      ≡ ok (linked_order_total linked orders)
unfolding worker_linked_order_total linked_order_total order_document field_of
totals linked [] = refl
totals linked (order ∷ orders) =
    rw (parse-format_money order.total, totals linked orders)
      (if_ok (same_text order.id linked) (some order.total) _)

replies :
    (s : RefundStatus)
    → worker_refund_reply_by_status (refund_status_value s) ≡ ok (refund_reply_by_status s)
unfolding worker_refund_reply_by_status refund_reply_by_status refund_status_value same_text
replies RefundStatus.pending_approval = refl
replies RefundStatus.approved = refl
replies RefundStatus.executed = refl
replies RefundStatus.rejected = refl
replies RefundStatus.expired = refl

-- What the worker decodes of a state.
abbrev data_of : AgentState → PromptStateData
data_of state = record {
  verified = state.verified;
  orders = map order_document state.orders;
  orders_listed = state.orders_listed;
  linked_order_id = state.linked_order_id;
  last_refund_status = refund_status_text state.last_refund_status;
  reply_sent_after_last_refund = state.reply_sent_after_last_refund;
  menu = state.menu;
}

each_self : (js : List Json) → each (λ j. ok j) (items js) ≡ ok js
unfolding each
each_self [] = refl
each_self (j ∷ js) = rw (each_self js) refl

decodes : (state : AgentState) → decode_state (state_document state) ≡ ok (data_of state)
unfolding decode_state state_document field_of same_text
decodes state =
    rw
      (
        each_self (map order_document state.orders),
        text_or_null state.linked_order_id,
        text_or_null (refund_status_text state.last_refund_status),
        each-items as_text (λ s. Json.str s) state.menu (λ s. refl),
      )
      refl

propose_agrees :
    (linked : Chars) (total : Option ℤ)
    → (ok total >>= λ t. ok (worker_propose linked t)) ≡ ok (propose_total linked total)
propose_agrees linked none = refl
propose_agrees linked (some total) = refl

links_first :
    (orders : List OrderView)
    → worker_link_first (map order_document orders) ≡ ok (link_first orders)
links_first [] = refl
links_first (order ∷ orders) = rw (links order (order ∷ orders)) refl

reply_agrees :
    (replied : Bool) (status : RefundStatus)
    → worker_reply replied (refund_status_value status) ≡ ok (reply_or_finish replied status)
reply_agrees true status = refl
reply_agrees false status = rw (replies status) refl

after_refund_agrees :
    (state : AgentState) (linked : Chars) (status : Option RefundStatus)
    → worker_after_refund (data_of state) linked (refund_status_text status)
      ≡ ok (after_refund state linked status)
unfolding refund_status_value same_text
after_refund_agrees state linked none =
    rw (totals linked state.orders) (propose_agrees linked (linked_order_total linked state.orders))
after_refund_agrees state linked (some RefundStatus.pending_approval) = refl
after_refund_agrees state linked (some RefundStatus.approved) =
    reply_agrees state.reply_sent_after_last_refund RefundStatus.approved
after_refund_agrees state linked (some RefundStatus.executed) =
    reply_agrees state.reply_sent_after_last_refund RefundStatus.executed
after_refund_agrees state linked (some RefundStatus.rejected) =
    reply_agrees state.reply_sent_after_last_refund RefundStatus.rejected
after_refund_agrees state linked (some RefundStatus.expired) =
    reply_agrees state.reply_sent_after_last_refund RefundStatus.expired

after_listing_agrees :
    (state : AgentState) (linked : Option Chars)
    → worker_after_listing (data_of state) linked ≡ ok (after_listing state linked)
after_listing_agrees state none = links_first state.orders
after_listing_agrees state (some linked) = after_refund_agrees state linked state.last_refund_status

if_agrees :
    (v l : Bool) (x y z : Json) {r : Result Json}
    → r ≡ ok z
    → (if v then ok x else if l then ok y else r) ≡ ok (if v then x else if l then y else z)
if_agrees true l x y z h = refl
if_agrees false true x y z h = refl
if_agrees false false x y z h = h

decides :
    (state : AgentState)
    → worker_decide_heuristic_action (data_of state) ≡ ok (decide_heuristic_action state)
unfolding worker_decide_heuristic_action decide_heuristic_action
decides state =
    if_agrees (not state.verified) (not state.orders_listed) _ _ _
      (after_listing_agrees state state.linked_order_id)

-- The isolated worker, given the document of a prompt, never raises and returns the document of the
-- action that the application's own heuristic model decides on for the prompt's state.
pub propose_heuristic-prompt_document :
    (prompt : Prompt)
    → propose_heuristic (prompt_document prompt) ≡ ok (decide_heuristic_action prompt.state)
unfolding propose_heuristic decode_prompt prompt_document field_of same_text
propose_heuristic-prompt_document prompt = rw (decodes prompt.state) (decides prompt.state)
