-- ===== src/Agent/Gateway.antt =====
-- agent/gateway.py: the framing of the messages to and from the model's process, and the gateway over a
-- transport. A process is a function from what it is given on its standard input to how it ends.
pub mod Framing
use refundagent.Common.{
  ℕ, suc, Bool, true, false, Option, none, some, List, [], ◌∷◌, ◌++◌, if◌then◌else◌, length, ltb,
  ◌==◌, not,
}
use refundagent.Common.Bytes.{Bytes, drop, to_bytes, from_bytes}
use refundagent.Common.Chars.{Chars, take}
use refundagent.Common.Json.{Json}
use refundagent.Agent.Models.{decide_heuristic_action}
use refundagent.Agent.Prompt.Build.{Prompt}
use refundagent.Agent.Serialization.{prompt_document, deserialize_prompt}
use refundagent.Config.{model_response_max_bytes, model_worker_max_request_bytes}
use refundagent.Domain.Result.{
  Result, ok, err, ◌>>=◌, ◌>>◌, raise_if, protocol_error, runtime_error,
}

-- `_frame_message`
unfoldable pub frame_message : Bytes → Result Bytes
unfolding to_bytes
frame_message payload = do header ← to_bytes 4 (length payload); ok (header ++ payload)

-- `_read_framed_message`
unfoldable pub read_framed_message : Bytes → Result Bytes
unfolding from_bytes
read_framed_message payload = do
  raise_if (ltb (length payload) 4) protocol_error
  raise_if (not (length (drop 4 payload) == from_bytes 0 (take 4 payload))) protocol_error
  ok (drop 4 payload)

-- How the process ends: the gateway's time limit passes, or it exits with a status and its output.
pub data Exit : Type 0 where
  timed_out : Exit
  exited : ℕ → Bytes → Exit

abbrev pub read_exit : Exit → Result Bytes
read_exit Exit.timed_out = err protocol_error
read_exit (Exit.exited status output) =
    raise_if (not (status == 0)) protocol_error >> read_framed_message output

-- `ModelGatewayTransport`
abbrev pub Transport : Type 0
Transport = Bytes → Result Bytes

-- `SubprocessModelGatewayTransport.invoke`
unfoldable pub invoke_subprocess : (Bytes → Exit) → Transport
unfolding frame_message read_framed_message
invoke_subprocess process request = do
  raise_if (ltb model_worker_max_request_bytes (length request)) protocol_error
  input ← frame_message request
  read_exit (process input)

-- `ScriptedModelGatewayTransport.invoke`, with the responses that are left
unfoldable pub invoke_scripted : List Bytes → Bytes → Result (Bytes × List Bytes)
invoke_scripted [] request = err runtime_error
invoke_scripted (response ∷ responses) request = ok (response, responses)

-- JSON text is Python's: `loads` of a request, `dumps` of a prompt's and of an action's document.
module _ (loads : Bytes → Result Json) (dumps dumps_action : Json → Bytes) where
  -- `deserialize_prompt_bytes`
  unfoldable pub deserialize_prompt_bytes : Bytes → Result Prompt
  unfolding deserialize_prompt
  deserialize_prompt_bytes request = do document ← loads request; deserialize_prompt document

  -- `HeuristicModelGatewayTransport.invoke`
  unfoldable pub invoke_heuristic : Transport
  unfolding deserialize_prompt_bytes decide_heuristic_action
  invoke_heuristic request = do
    prompt ← deserialize_prompt_bytes request
    ok (dumps_action (decide_heuristic_action prompt.state))

  -- `ModelGateway.propose`, with the response's bytes in place of its text
  unfoldable pub propose : Transport → Prompt → Result Bytes
  unfolding prompt_document
  propose transport prompt = do
    response ← transport (dumps (prompt_document prompt))
    raise_if (ltb model_response_max_bytes (length response)) protocol_error
    ok response
