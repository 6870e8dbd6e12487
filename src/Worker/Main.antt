-- ===== src/Worker/Main.antt =====
-- __main__.py of the worker, `main`, with the limits that it reads from its environment and the request
-- that stands on its standard input.
pub mod Refines
use refundagent.Common.{ℕ, Bool, true, false, List, [], ◌∷◌}
use refundagent.Common.Bytes.{Bytes}
use refundagent.Common.Json.{Json}
use refundagent.Agent.Gateway.{Exit}
use refundagent.Domain.Result.{Result, ok, err, ◌>>=◌, Error, protocol_error}
use refundagent.Worker.Heuristic.{propose_heuristic}
use refundagent.Worker.Protocol.{Stream, read_message, write_message}

-- How the process exits: `fail_protocol` ends it with status 2, and Python with status 1 after any other
-- exception.
abbrev pub exit_of : Result Bytes → Exit
exit_of (ok output) = Exit.exited 0 output
exit_of (err Error.protocol_error) = Exit.exited 2 []
exit_of (err raised) = Exit.exited 1 []

-- JSON text is Python's: `loads` of a request and `dumps_action` of an action's document.
module _ (loads : Bytes → Result Json) (dumps_action : Json → Bytes) where
  -- `propose_heuristic`, on the request's bytes
  unfoldable pub propose_heuristic_bytes : Bytes → Result Bytes
  unfolding propose_heuristic
  propose_heuristic_bytes request = do
    document ← loads request
    action ← propose_heuristic document
    ok (dumps_action action)

  unfoldable pub main : ℕ → ℕ → Stream → Exit
  unfolding propose_heuristic_bytes read_message write_message
  main request_max_bytes response_max_bytes stdin = exit_of (do
    (request, rest) ← read_message request_max_bytes stdin
    response ← propose_heuristic_bytes request
    write_message response_max_bytes response)
