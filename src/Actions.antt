-- ===== src/Actions.antt =====
-- actions/models.py: the typed agent proposals. The lengths of the text fields are bounded by
-- pydantic when a model output is parsed, and the bounds are not carried along.
use refundagent.Common.{String}
use refundagent.Domain.Decimal.{Decimal}
use refundagent.Domain.Payload.{ActionName}
use refundagent.Domain.Texts.{OrderId}

-- The text of an order in a proposal, which the model writes as it likes: an order's identifier, or
-- any other text.
pub data OrderRef : Type 0 where
  named : OrderId → OrderRef
  unnamed : String → OrderRef

pub data Action : Type 0 where
  get_orders : Action
  link_order : OrderRef → Action
  propose_refund : Decimal → Action
  -- subject, body
  send_reply : String → String → Action
  request_verification : Action
  -- reason
  escalate : String → Action
  -- summary
  finish : String → Action

-- The field `action` of each model, which gate/common.py's `action_discriminator` reads.
abbrev pub action_discriminator : Action → ActionName
action_discriminator Action.get_orders = ActionName.get_orders
action_discriminator (Action.link_order o) = ActionName.link_order
action_discriminator (Action.propose_refund a) = ActionName.propose_refund
action_discriminator (Action.send_reply s b) = ActionName.send_reply
action_discriminator Action.request_verification = ActionName.request_verification
action_discriminator (Action.escalate r) = ActionName.escalate
action_discriminator (Action.finish s) = ActionName.finish
