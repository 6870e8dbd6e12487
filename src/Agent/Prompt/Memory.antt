-- ===== src/Agent/Prompt/Memory.antt =====
-- agent/prompt.py: the records of the case's history, one renderer for each type of event.
use refundagent.Common.{
  ◌==◌, true, Option, none, some, is_some, List, [], ◌∷◌, map, filter, sort_by, if◌then◌else◌,
}
use mathlib.Core.List.{flat_map}
use refundagent.Common.Chars.{Chars, codes}
use refundagent.Common.Json.{Json, Fields, items}
use refundagent.Agent.Prompt.State.{
  OrderSeedView, disclosed_order_ids, scope_order_seeds_for_disclosure,
}
use refundagent.Agent.Prompt.Untrusted.{bound_untrusted_text}
use refundagent.Common.{ℕ, String}
use refundagent.Common.Int.{ℤ}
use refundagent.Domain.Enums.{CaseOutcome}
use refundagent.Domain.Payload.{ActionName, Payload}
use refundagent.Domain.Spelling.{
  order_name, refund_name, provider_ref_name, format_money, spell, order_status_value,
  case_outcome_value, action_value,
}
use refundagent.Domain.Texts.{CustomerId, OrderId, RefundId, Text}
use refundagent.Projection.Types.{StoredEvent, by_seq}

abbrev pub provenance_customer : Chars
provenance_customer = codes "UNTRUSTED_CUSTOMER"

abbrev pub provenance_model : Chars
provenance_model = codes "UNTRUSTED_MODEL"

abbrev pub provenance_system : Chars
provenance_system = codes "SYSTEM_FEEDBACK"

-- `orders_by_id.get(order_id)`: of two seeds with one id the dict keeps the later.
abbrev kept_seed : OrderSeedView → OrderId → Option OrderSeedView → Option OrderSeedView
kept_seed seed o (some later) = some later
kept_seed seed o none = if seed.order_id == o then some seed else none

unfoldable pub seed_of : List OrderSeedView → OrderId → Option OrderSeedView
seed_of [] o = none
seed_of (seed ∷ seeds) o = kept_seed seed o (seed_of seeds o)

abbrev text_field : Chars → Chars → Fields → Fields
text_field key value rest = Fields.field key (Json.str value) rest

-- A record starts with its provenance and its kind.
abbrev pub memory_record : Chars → Chars → Fields → Json
memory_record provenance kind rest =
    Json.obj (text_field (codes "provenance") provenance (text_field (codes "kind") kind rest))

-- `_order_detail_record`
unfoldable pub order_detail_fields : OrderId → Option OrderSeedView → Fields
unfolding order_name format_money order_status_value
order_detail_fields o none = text_field (codes "order_id") (order_name o) (
    Fields.field (codes "item") Json.null (
      Fields.field (codes "total") Json.null (
        Fields.field (codes "status") Json.null
          (Fields.field (codes "seed_missing") (Json.bool true) Fields.end))))
order_detail_fields o (some seed) = text_field (codes "order_id") (order_name seed.order_id) (
    text_field (codes "item") (bound_untrusted_text seed.item) (
      text_field (codes "total") (format_money seed.total)
        (text_field (codes "status") (order_status_value seed.status) Fields.end)))

abbrev summary_record : Option Chars → List Json
summary_record none = []
summary_record (some summary) =
    memory_record provenance_model (codes "finish_summary")
      (text_field (codes "summary") (bound_untrusted_text summary) Fields.end)
    ∷ []

-- `_render_email_received`
unfoldable pub render_email_received : String → String → String → List Json
render_email_received message subject body =
    memory_record provenance_customer (codes "email_received") (
      text_field (codes "subject") (bound_untrusted_text (codes subject))
        (text_field (codes "body") (bound_untrusted_text (codes body)) Fields.end))
    ∷ []

-- `_render_orders_listed`
unfoldable pub render_orders_listed : List OrderSeedView → List OrderId → List Json
unfolding order_detail_fields seed_of
render_orders_listed seeds ids =
    memory_record provenance_system (codes "orders_listed") (
      Fields.field (codes "orders")
        (Json.arr (
          items (
            map (λ o. Json.obj (order_detail_fields o (seed_of seeds o)))
              (filter (λ o. is_some (seed_of seeds o)) ids))))
        Fields.end)
    ∷ []

-- `_render_order_linked`
unfoldable pub render_order_linked : List OrderSeedView → OrderId → List Json
unfolding order_detail_fields seed_of
render_order_linked seeds o =
    memory_record provenance_system (codes "order_linked") (order_detail_fields o (seed_of seeds o))
    ∷ []

-- `_render_reply_sent`
unfoldable pub render_reply_sent : String → String → List Json
render_reply_sent subject body =
    memory_record provenance_model (codes "reply_sent") (
      text_field (codes "subject") (bound_untrusted_text (codes subject))
        (text_field (codes "body") (bound_untrusted_text (codes body)) Fields.end))
    ∷ []

-- `_render_action_denied`
unfoldable pub render_action_denied : ActionName → String → Text → Text → List Json
unfolding action_value spell
render_action_denied action rule agent_reason customer_reason =
    memory_record provenance_system (codes "action_denied") (
      text_field (codes "action") (action_value action) (
        text_field (codes "rule") (codes rule)
          (text_field (codes "agent_reason") (spell agent_reason) Fields.end)))
    ∷ []

-- `_render_refund_proposed`
unfoldable pub render_refund_proposed : RefundId → ℤ → List Json
unfolding refund_name format_money
render_refund_proposed r amount =
    memory_record provenance_system (codes "refund_proposed") (
      text_field (codes "refund_id") (refund_name r)
        (text_field (codes "amount") (format_money amount) Fields.end))
    ∷ []

-- `_render_refund_auto_approved`
unfoldable pub render_refund_auto_approved : RefundId → List Json
unfolding refund_name
render_refund_auto_approved r =
    memory_record provenance_system (codes "refund_auto_approved")
      (text_field (codes "refund_id") (refund_name r) Fields.end)
    ∷ []

-- `_render_refund_approval_required`
unfoldable pub render_refund_approval_required : RefundId → ℤ → String → List Json
unfolding refund_name format_money
render_refund_approval_required r amount rule =
    memory_record provenance_system (codes "refund_approval_required") (
      text_field (codes "refund_id") (refund_name r) (
        text_field (codes "amount") (format_money amount)
          (text_field (codes "rule") (codes rule) Fields.end)))
    ∷ []

-- `_render_refund_approved`
unfoldable pub render_refund_approved : RefundId → String → List Json
unfolding refund_name
render_refund_approved r operator =
    memory_record provenance_system (codes "refund_approved") (
      text_field (codes "refund_id") (refund_name r)
        (text_field (codes "operator_id") (codes operator) Fields.end))
    ∷ []

-- `_render_refund_rejected`
unfoldable pub render_refund_rejected : RefundId → String → String → List Json
unfolding refund_name
render_refund_rejected r operator reason =
    memory_record provenance_system (codes "refund_rejected") (
      text_field (codes "refund_id") (refund_name r)
        (text_field (codes "operator_id") (codes operator) Fields.end))
    ∷ []

-- `_render_refund_expired`
unfoldable pub render_refund_expired : RefundId → List Json
unfolding refund_name
render_refund_expired r =
    memory_record provenance_system (codes "refund_expired")
      (text_field (codes "refund_id") (refund_name r) Fields.end)
    ∷ []

-- `_render_refund_executed`
unfoldable pub render_refund_executed : RefundId → ℤ → ℕ → List Json
unfolding refund_name format_money provider_ref_name
render_refund_executed r amount ref =
    memory_record provenance_system (codes "refund_executed") (
      text_field (codes "refund_id") (refund_name r) (
        text_field (codes "amount") (format_money amount)
          (text_field (codes "provider_ref") (provider_ref_name ref) Fields.end)))
    ∷ []

-- `_render_case_closed`
unfoldable pub render_case_closed : CaseOutcome → Option String → List Json
unfolding case_outcome_value
render_case_closed outcome summary =
    memory_record provenance_system (codes "case_closed")
      (text_field (codes "outcome") (case_outcome_value outcome) Fields.end)
    ∷ summary_record (elim summary [ none ↦ none | some s ↦ some (codes s) ])

-- `_MEMORY_EVENT_RENDERERS` and `_render_case_event`; types that have no renderer leave no record.
unfoldable pub render_payload : List OrderSeedView → Payload → List Json
unfolding render_email_received render_orders_listed render_order_linked render_reply_sent
    render_action_denied render_refund_proposed render_refund_auto_approved
    render_refund_approval_required render_refund_approved render_refund_rejected
    render_refund_expired render_refund_executed render_case_closed
render_payload seeds (Payload.email_received message subject body) =
    render_email_received message subject body
render_payload seeds (Payload.orders_listed ids) = render_orders_listed seeds ids
render_payload seeds (Payload.order_linked o) = render_order_linked seeds o
render_payload seeds (Payload.reply_sent subject body) = render_reply_sent subject body
render_payload seeds (Payload.action_denied action rule agent_reason customer_reason) =
    render_action_denied action rule agent_reason customer_reason
render_payload seeds (Payload.refund_proposed r amount) = render_refund_proposed r amount
render_payload seeds (Payload.refund_auto_approved r) = render_refund_auto_approved r
render_payload seeds (Payload.refund_approval_required r amount rule) =
    render_refund_approval_required r amount rule
render_payload seeds (Payload.refund_approved r operator) = render_refund_approved r operator
render_payload seeds (Payload.refund_rejected r operator reason) =
    render_refund_rejected r operator reason
render_payload seeds (Payload.refund_expired r) = render_refund_expired r
render_payload seeds (Payload.refund_executed r amount ref) = render_refund_executed r amount ref
render_payload seeds (Payload.case_closed outcome summary) = render_case_closed outcome summary
render_payload seeds _ = []

-- The records of `render_memory`, before they are bounded.
unfoldable pub memory_records : List StoredEvent → List OrderSeedView → CustomerId → List Json
unfolding render_payload
memory_records case_events seeds c =
    let scoped = scope_order_seeds_for_disclosure seeds (disclosed_order_ids case_events) c in
    flat_map (λ e. render_payload scoped e.payload) (sort_by by_seq case_events)
