-- ===== src/Agent/Serialization.antt =====
-- agent/prompt_serialization.py: a prompt as the document of a request to the model worker, and back.
-- The JSON text of a document is left to Python's json module.
pub mod RoundTrip
use refundagent.Common.{
  ℕ, ◌+◌, ◌-◌, ◌*◌, ◌==◌, leb, Bool, true, false, ◌&&◌, Option, none, some, List, [], ◌∷◌,
  if◌then◌else◌,
}
use refundagent.Common.Chars.{Chars, codes, same_text}
use refundagent.Common.Int.{ℤ, signed}
use refundagent.Common.Json.{Json, Items, Fields}
use refundagent.Agent.Prompt.Build.{Prompt, state_document}
use refundagent.Agent.Prompt.State.{AgentState, OrderView}
use refundagent.Domain.Enums.{OrderStatus, RefundStatus}
use refundagent.Domain.Result.{
  Result, ok, err, ◌>>=◌, value_error, key_error, type_error, invalid_operation, or_raise,
}

-- `serialize_prompt`
unfoldable pub prompt_document : Prompt → Json
unfolding state_document
prompt_document prompt = Json.obj (
    Fields.field (codes "text") (Json.str prompt.text)
      (Fields.field (codes "state") (state_document prompt.state) Fields.end))

abbrev later_or : Option Json → Bool → Json → Option Json
later_or (some later) here value = some later
later_or none here value = if here then some value else none

-- `document.get(key)`: of two fields with one key, the later.
unfoldable pub field_of : Chars → Fields → Option Json
unfolding same_text
field_of key Fields.end = none
field_of key (Fields.field k value fields) = later_or (field_of key fields) (same_text k key) value

-- `document[key]`
abbrev pub member : Chars → Json → Result Json
member key (Json.obj fields) = or_raise (field_of key fields) key_error
member key _ = err type_error

-- The types that the fields have in a document that the application wrote. Python does not check
-- them when it reads.
abbrev pub as_bool : Json → Result Bool
as_bool (Json.bool b) = ok b
as_bool _ = err type_error

abbrev pub as_text : Json → Result Chars
as_text (Json.str s) = ok s
as_text _ = err type_error

abbrev pub as_text_or_null : Json → Result (Option Chars)
as_text_or_null Json.null = ok none
as_text_or_null (Json.str s) = ok (some s)
as_text_or_null _ = err type_error

-- The list comprehension over a JSON array.
unfoldable pub each : {A : Type 0} → (Json → Result A) → Items → Result (List A)
each f Items.nil = ok []
each f (Items.cons j js) = do first ← f j; rest ← each f js; ok (first ∷ rest)

abbrev pub as_list : {A : Type 0} → (Json → Result A) → Json → Result (List A)
as_list f (Json.arr js) = each f js
as_list f _ = err type_error

abbrev is_digit : ℕ → Bool
is_digit c = leb b'0' c && leb c b'9'

abbrev value_of : ℕ → ℕ
value_of c = c - b'0'

abbrev read_decimals : ℕ → Chars → Option ℕ
read_decimals whole (a ∷ b ∷ []) =
    if is_digit a && is_digit b then some (whole * 100 + (value_of a * 10 + value_of b)) else none
read_decimals whole _ = none

unfoldable pub read_money : ℕ → Chars → Option ℕ
read_money whole [] = none
read_money whole (c ∷ s) =
    let more = read_money (whole * 10 + value_of c) s in
    if c == b'.' then read_decimals whole s else if is_digit c then more else none

abbrev money_of : Bool → Option ℕ → Option ℤ
money_of negative none = none
money_of negative (some n) = some (signed negative n)

-- `Decimal(text)`, on the literals with two decimals that `format` writes for money.
unfoldable pub parse_money : Chars → Option ℤ
unfolding read_money
parse_money [] = none
parse_money (c ∷ s) =
    if c == b'-' then money_of true (read_money 0 s) else money_of false (read_money 0 (c ∷ s))

-- `OrderStatus(text)` and `RefundStatus(text)`
unfoldable pub order_status_of : Chars → Result OrderStatus
order_status_of s =
    if same_text s (codes "delivered")
    then ok OrderStatus.delivered
    else if same_text s (codes "delivered_damaged")
    then ok OrderStatus.delivered_damaged
    else if same_text s (codes "shipped")
    then ok OrderStatus.shipped
    else err value_error

unfoldable pub refund_status_of : Chars → Result RefundStatus
refund_status_of s =
    if same_text s (codes "pending_approval")
    then ok RefundStatus.pending_approval
    else if same_text s (codes "approved")
    then ok RefundStatus.approved
    else if same_text s (codes "executed")
    then ok RefundStatus.executed
    else if same_text s (codes "rejected")
    then ok RefundStatus.rejected
    else if same_text s (codes "expired")
    then ok RefundStatus.expired
    else err value_error

-- `RefundStatus(text) if text else None`
abbrev pub optional_status : Option Chars → Result (Option RefundStatus)
optional_status none = ok none
optional_status (some []) = ok none
optional_status (some (c ∷ s)) = do status ← refund_status_of (c ∷ s); ok (some status)

unfoldable pub order_of : Json → Result OrderView
unfolding field_of parse_money order_status_of
order_of order = do
  id ← member (codes "id") order
  name ← as_text id
  item ← member (codes "item") order
  inner ← member (codes "value") item
  value ← as_text inner
  total ← member (codes "total") order
  total_text ← as_text total
  amount ← or_raise (parse_money total_text) invalid_operation
  status ← member (codes "status") order
  status_text ← as_text status
  order_status ← order_status_of status_text
  ok (record { id = name; item = value; total = amount; status = order_status })

unfoldable pub state_of_document : Json → Result AgentState
unfolding field_of each order_of refund_status_of
state_of_document state = do
  orders_field ← member (codes "orders") state
  orders ← as_list order_of orders_field
  status_field ← member (codes "last_refund_status") state
  status_text ← as_text_or_null status_field
  verified_field ← member (codes "verified") state
  verified ← as_bool verified_field
  listed_field ← member (codes "orders_listed") state
  listed ← as_bool listed_field
  linked_field ← member (codes "linked_order_id") state
  linked ← as_text_or_null linked_field
  status ← optional_status status_text
  replied_field ← member (codes "reply_sent_after_last_refund") state
  replied ← as_bool replied_field
  menu_field ← member (codes "menu") state
  menu ← as_list as_text menu_field
  ok (record {
    verified = verified;
    orders = orders;
    orders_listed = listed;
    linked_order_id = linked;
    last_refund_status = status;
    reply_sent_after_last_refund = replied;
    menu = menu;
  })

-- `deserialize_prompt_bytes`, from the document on
unfoldable pub deserialize_prompt : Json → Result Prompt
unfolding state_of_document
deserialize_prompt document = do
  state_field ← member (codes "state") document
  state ← state_of_document state_field
  text_field ← member (codes "text") document
  text ← as_text text_field
  ok (record { text = text; state = state })
