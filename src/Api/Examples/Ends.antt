-- ===== src/Api/Examples/Ends.antt =====
-- The theorems on the ends of the agent's loop and of the queue, at the same shop.
use refundagent.Common.{[], ◌∷◌, refl, arith}
use refundagent.Agent.Loop.{run_agent_loop}
use refundagent.Agent.Loop.Ends.{IsAnswered, run_agent_loop-ends}
use refundagent.Api.Queue.{drain_agent_loop_queue}
use refundagent.Api.Queue.Ends.{drain-ends}
use refundagent.Api.Examples.{start, asking}

run_agent_loop-ends_example : IsAnswered (run_agent_loop asking 1 13 [] start).0
run_agent_loop-ends_example = run_agent_loop-ends asking 1 13 start (omega arith, tt) (omega arith)

drain-ends_example : IsAnswered (drain_agent_loop_queue asking 13 3 (1 ∷ 7 ∷ []) start).0
drain-ends_example =
    drain-ends asking 13 3 (1 ∷ 7 ∷ []) start (omega arith) (omega arith)
      ((refl, (omega arith, tt)), (refl, (omega arith, tt)))
