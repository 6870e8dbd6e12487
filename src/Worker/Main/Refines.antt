-- ===== src/Worker/Main/Refines.antt =====
-- The model behind the process boundary answers as the one without it.
use refundagent.Common.{
  ℕ, true, [], ◌∷◌, ◌++◌, length, ltb, ◌≡◌, refl, ◌≤◌, ◌<◌, inl, inr, ◌∙◌, sym, arith, ap,
}
use refundagent.Common.Bytes.{Bytes}
use refundagent.Common.Json.{Json}
use refundagent.Agent.Gateway.{
  Exit, read_exit, invoke_subprocess, deserialize_prompt_bytes, invoke_heuristic, propose,
}
use refundagent.Agent.Gateway.Framing.{framed, reads}
use refundagent.Agent.Models.{decide_heuristic_action}
use refundagent.Agent.Prompt.Build.{Prompt}
use refundagent.Agent.Serialization.{prompt_document}
use refundagent.Agent.Serialization.RoundTrip.{deserialize-prompt_document}
use refundagent.Config.{model_response_max_bytes, model_worker_max_request_bytes}
use refundagent.Domain.Result.{Result, ok, err, ◌>>=◌, ◌>>◌, raise_if, protocol_error}
use refundagent.Worker.Agreement.{propose_heuristic-prompt_document}
use refundagent.Worker.Main.{main, propose_heuristic_bytes, exit_of}
use refundagent.Worker.Protocol.{Stream, write_message}
use refundagent.Worker.Protocol.Exact.{content, IsFlowing}
use refundagent.Worker.Protocol.Messages.{
  Reads-message, written, frame_of, short_or_long, not_above,
}

-- The gateway's limit on a response.
abbrev within : Bytes → Result Bytes
within response = do
  raise_if (ltb model_response_max_bytes (length response)) protocol_error
  ok response

above : (limit n : ℕ) → limit < n → ltb limit n ≡ true
above limit n h = ground arith

append_nil : (b : Bytes) → b ++ [] ≡ b
append_nil [] = refl
append_nil (x ∷ b) = ap (λ t. x ∷ t) (append_nil b)

too_long :
    (limit : ℕ) (payload : Bytes)
    → limit < length payload
    → write_message limit payload ≡ err protocol_error
unfolding write_message
too_long limit payload h = ground arith

-- The worker's limit on a response is the gateway's: past it, both refuse it.
answered :
    (response : Bytes)
    → (read_exit (exit_of (write_message model_response_max_bytes response)) >>= within)
      ≡ within response
answered response = elim (short_or_long model_response_max_bytes (length response)) [
  | inl long ↦
      rw
        (
          too_long model_response_max_bytes response long,
          above model_response_max_bytes (length response) long,
        )
        refl
  | inr short ↦
      rw
        (
          written model_response_max_bytes response short (omega arith),
          reads response (omega arith),
        )
        refl
]

module _ (loads : Bytes → Result Json) (dumps dumps_action : Json → Bytes)
    (deliver : Bytes → Stream) where
  -- The worker as a process, with the limits that the gateway puts in its environment and a pipe that
  -- delivers its input in pieces.
  abbrev pub worker : Bytes → Exit
  worker input =
      main loads dumps_action model_worker_max_request_bytes model_response_max_bytes
        (deliver input)

  -- Behind the process boundary, with a request within the limit, `ModelGateway.propose` gives
  -- what it gives with the heuristic model in the gateway's own process: the same response, or the
  -- same error when the response is over its limit. It is supposed that the JSON text of the
  -- prompt's document reads back as this document, and that the pipe delivers to the worker what
  -- the gateway wrote, in pieces that are not empty.
  pub propose-worker :
      (prompt : Prompt)
      → loads (dumps (prompt_document prompt)) ≡ ok (prompt_document prompt)
      → ((input : Bytes) → (content (deliver input) ≡ input) × IsFlowing (deliver input))
      → length (dumps (prompt_document prompt)) ≤ model_worker_max_request_bytes
      → propose loads dumps dumps_action (invoke_subprocess worker) prompt
        ≡ propose loads dumps dumps_action (invoke_heuristic loads dumps dumps_action) prompt
  unfolding main propose_heuristic_bytes propose invoke_subprocess invoke_heuristic
      deserialize_prompt_bytes
  propose-worker prompt hj hd hl =
      let request = dumps (prompt_document prompt) in
      let (delivered, live) = hd (frame_of request) in
      let (rest, hr, _, _) =
        Reads-message model_worker_max_request_bytes (deliver (frame_of request)) request [] hl
          (omega arith) (delivered ∙ sym (append_nil (frame_of request))) live in
      rw
        (
          not_above model_worker_max_request_bytes (length request) hl,
          framed request (omega arith),
          hr,
          hj,
          propose_heuristic-prompt_document prompt,
          deserialize-prompt_document prompt,
        )
        (answered (dumps_action (decide_heuristic_action prompt.state)))
