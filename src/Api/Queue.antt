-- ===== src/Api/Queue.antt =====
-- `_drain_agent_loop_queue` of api/routes.py: one case loop at a time, each case at most once. The
-- queue runs on fuel; `none` means that the fuel ran out.
pub mod Once
pub mod Measure
pub mod Ends
use refundagent.Common.{
  ℕ, zero, suc, Bool, true, false, not, Option, none, some, List, [], ◌∷◌, ◌++◌, contains,
  if◌then◌else◌,
}
use refundagent.Agent.Boundary.{Environment}
use refundagent.Agent.Loop.{run_agent_loop}
use refundagent.Domain.Enums.{CaseStatus, is_open}
use refundagent.Domain.Texts.{CustomerId, CaseId}
use refundagent.Projection.Case.{project_case_summary}
use refundagent.Store.Queries.{find_case, load_customer_events}
use refundagent.Store.Rows.{CaseRow}
use refundagent.Store.Session.{Tx, pure, gets, now, in_transaction, ◌>>=◌}

-- The ids that are not seen yet, each once, in their order; what is new is seen from there on.
unfoldable pub unseen : List CaseId → List CaseId → List CaseId
unseen seen [] = []
unseen seen (k ∷ ks) =
    let fresh = k ∷ unseen (seen ++ k ∷ []) ks in
    let rest = unseen seen ks in if contains seen k then rest else fresh

abbrev is_closed : CaseStatus → Bool
is_closed CaseStatus.closed = true
is_closed _ = false

abbrev pub with_turn : CaseId → Option (List CaseId) → Option (List CaseId)
with_turn k none = none
with_turn k (some turns) = some (k ∷ turns)

-- The queue and the seen ids after a case's turn, and the turns to come.
unfoldable pub after_turn :
    (List CaseId → List CaseId → Tx (Option (List CaseId)))
    → CaseId
    → List CaseId
    → List CaseId
    → Option (List CaseId)
    → Tx (Option (List CaseId))
unfolding unseen
after_turn again k seen queue none = pure none
after_turn again k seen queue (some peers) = do
  let fresh = unseen seen peers
  rest ← again (seen ++ fresh) (queue ++ fresh)
  pure (with_turn k rest)

-- `_case_may_run_agent_loop`
unfoldable pub case_may_run_agent_loop : CaseId → CustomerId → Tx Bool
case_may_run_agent_loop k c = do
  events ← gets (λ w. load_customer_events c w.db)
  at ← now
  pure (not (is_closed (project_case_summary k c events at).status))

-- `_case_is_open`
unfoldable pub case_is_open : CaseId → CustomerId → Tx Bool
case_is_open k c = do
  events ← gets (λ w. load_customer_events c w.db)
  at ← now
  pure (is_open (project_case_summary k c events at).status)

-- Whether the case of the row that was found may run; a missing row is passed over.
unfoldable pub may_run : CaseId → Option CaseRow → Tx Bool
unfolding case_may_run_agent_loop
may_run k none = pure false
may_run k (some row) = case_may_run_agent_loop k row.customer_id

module _ (env : Environment) (loop_fuel : ℕ) where
  -- `run_agent_loop` in a session of its own, with the commit after it.
  unfoldable pub run_if : CaseId → Bool → Tx (Option (List CaseId))
  run_if k false = pure (some [])
  run_if k true = in_transaction (run_agent_loop env k loop_fuel [])

  -- One turn of the queue: the peers that the case's loop has reopened.
  unfoldable pub queue_turn : CaseId → Tx (Option (List CaseId))
  unfolding may_run run_if
  queue_turn k = do found ← gets (λ w. find_case k w.db); runs ← may_run k found; run_if k runs

  -- The loop over `pending_case_ids` from `queue_index` on, given the ids seen so far. The result is
  -- the list of the cases that had their turn.
  unfoldable pub drain_from : ℕ → List CaseId → List CaseId → Tx (Option (List CaseId))
  unfolding queue_turn after_turn
  drain_from fuel seen [] = pure (some [])
  drain_from zero seen (k ∷ queue) = pure none
  drain_from (suc fuel) seen (k ∷ queue) =
      let again = drain_from fuel in do peers ← queue_turn k; after_turn again k seen queue peers

  unfoldable pub drain_agent_loop_queue : ℕ → List CaseId → Tx (Option (List CaseId))
  unfolding drain_from unseen
  drain_agent_loop_queue fuel initial = let queue = unseen [] initial in drain_from fuel queue queue
