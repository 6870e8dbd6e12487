-- ===== src/Worker/Examples.antt =====
-- The theorems on the worker at a concrete prompt, on a pipe that delivers byte by byte.
use refundagent.Common.{◌≡◌, ◌≤◌, refl, ap, true, false, none, [], ◌∷◌, ◌++◌, map, arith, length}
use refundagent.Common.Bytes.{Bytes, last_bytes}
use refundagent.Common.Chars.{codes, decimal, last_digits}
use refundagent.Common.Int.{pos}
use refundagent.Common.Json.{Json, dumps}
use refundagent.Agent.Gateway.{invoke_heuristic, invoke_subprocess, propose}
use refundagent.Agent.Prompt.Build.{Prompt}
use refundagent.Agent.Serialization.{prompt_document}
use refundagent.Domain.Enums.{OrderStatus}
use refundagent.Domain.Result.{Result, ok, err, protocol_error}
use refundagent.Worker.Main.Refines.{propose-worker, worker}
use refundagent.Worker.Protocol.{Stream, read_message}
use refundagent.Worker.Protocol.Exact.{content, IsFlowing}
use refundagent.Worker.Protocol.Messages.{frame_of, read_message-cut_off}

abbrev prompt : Prompt
prompt = record {
  text = codes "Respond.";
  state = record {
    verified = true;
    orders =
        record {
          id = codes "ORD-7";
          item = codes "Lamp";
          total = pos 4999;
          status = OrderStatus.delivered_damaged;
        }
        ∷ [];
    orders_listed = true;
    linked_order_id = none;
    last_refund_status = none;
    reply_sent_after_last_refund = false;
    menu = codes "link_order" ∷ [];
  };
}

abbrev bytewise : Bytes → Stream
bytewise bytes = map (λ b. b ∷ []) bytes

bytewise-content : (bytes : Bytes) → content (bytewise bytes) ≡ bytes
bytewise-content [] = refl
bytewise-content (b ∷ bytes) = ap (λ t. b ∷ t) (bytewise-content bytes)

bytewise-IsFlowing : (bytes : Bytes) → IsFlowing (bytewise bytes)
bytewise-IsFlowing [] = tt
bytewise-IsFlowing (b ∷ bytes) = (omega arith, bytewise-IsFlowing bytes)

abbrev text_of : Json → Bytes
text_of document = dumps true document

abbrev loads_prompt : Bytes → Result Json
loads_prompt bytes = ok (prompt_document prompt)

prompt_fits : length (text_of (prompt_document prompt)) ≤ 524288
unfolding dumps prompt_document decimal last_digits
prompt_fits = omega arith

propose-worker_example :
    propose loads_prompt text_of text_of
      (invoke_subprocess (worker loads_prompt text_of text_of bytewise))
      prompt
    ≡ propose loads_prompt text_of text_of (invoke_heuristic loads_prompt text_of text_of) prompt
propose-worker_example =
    propose-worker loads_prompt text_of text_of bytewise prompt refl
      (λ input. (bytewise-content input, bytewise-IsFlowing input)) prompt_fits

cut : content (bytewise (0 ∷ 0 ∷ 0 ∷ 3 ∷ 7 ∷ 8 ∷ [])) ++ 9 ∷ [] ≡ frame_of (7 ∷ 8 ∷ 9 ∷ [])
unfolding last_bytes
cut = refl

-- Two of the payload's three bytes have arrived.
read_message-cut_off_example :
    read_message 65536 (bytewise (0 ∷ 0 ∷ 0 ∷ 3 ∷ 7 ∷ 8 ∷ [])) ≡ err protocol_error
read_message-cut_off_example =
    read_message-cut_off 65536 (bytewise (0 ∷ 0 ∷ 0 ∷ 3 ∷ 7 ∷ 8 ∷ [])) (7 ∷ 8 ∷ 9 ∷ []) (9 ∷ [])
      (omega arith) cut (omega arith) (bytewise-IsFlowing (0 ∷ 0 ∷ 0 ∷ 3 ∷ 7 ∷ 8 ∷ []))
