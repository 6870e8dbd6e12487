-- ===== src/Agent/Loop.antt =====
-- agent/loop.py, with the disclosure of orders of agent/prompt.py and repositories/orders.py. The
-- loop runs on fuel; `none` means that the fuel ran out.
pub mod Keeps
pub mod Peers
pub mod Progress
pub mod Ends
pub mod Known
use mathlib.Core.List.{foldl}
use refundagent.Common.{
  ℕ, zero, suc, ◌==◌, ◌=?◌, leb, ltb, String, Bool, true, false, ◌||◌, Option, none, some, List, [],
  ◌∷◌, ◌++◌, filter, map, length, contains, sort_by, if◌then◌else◌,
}
use refundagent.Config
use refundagent.Agent.Prompt.Build.{Prompt, build_prompt}
use refundagent.Agent.Prompt.State.{OrderSeedView, disclosed_order_ids, order_seed_view}
use refundagent.Bounds.{bound_invalid_output_audit}
use refundagent.Common.Chars.{codes}
use refundagent.Common.Json.{encoded_length}
use refundagent.Projection.Customer.{CustomerSummary, project_customer_summary}
use refundagent.Agent.Boundary.{Environment, ParseOutcome, invoke_model_boundary}
use refundagent.Domain.Enums.{Actor, CaseStatus, Channel, EscalationOrigin}
use refundagent.Domain.Payload.{Payload}
use refundagent.Domain.Result.{
  Result, ok, ◌>>=◌ as bind, or_raise, case_not_found, customer_not_found, value_error,
}
use refundagent.Domain.Texts.{CustomerId, CaseId, OrderId, Text, text}
use refundagent.Gate.Common.{expire_due_refunds_for_customer}
use refundagent.Gate.Operations.{escalate_case, execute_agent_action, by_reason}
use refundagent.Projection.Case.{CaseSummary, project_case_summary}
use refundagent.Projection.Types.{StoredEvent, CustomerSeed, by_seq}
use refundagent.Store.Append.{append_canonical_event}
use refundagent.Store.Names.{name_leb}
use refundagent.Store.Queries.{find_customer, find_case, find_order_by_id, load_customer_events}
use refundagent.Store.Rows.{CaseRow, OrderRow, Database}
use refundagent.Store.Session.{Tx, pure, lift, gets, require, now, ◌>>=◌, ◌>>◌}

-- `_accumulate_peer_case_ids`: the returns of a sweep, each once and without the current case. The
-- source keeps the seen ids in a set beside the list; they are the ids of the list.
unfoldable pub accumulate_peer_case_ids : CaseId → List CaseId → List CaseId → List CaseId
accumulate_peer_case_ids k [] peers = peers
accumulate_peer_case_ids k (p ∷ ps) peers =
    accumulate_peer_case_ids k ps (if p == k || contains peers p then peers else peers ++ p ∷ [])

abbrev owned_row : CustomerId → Option OrderRow → List OrderRow
owned_row c none = []
owned_row c (some row) = if row.customer_id == c then row ∷ [] else []

-- The ids as a set.
abbrev without_repeats : List OrderId → List OrderId
without_repeats [] = []
without_repeats (o ∷ os) =
    let rest = without_repeats os in if contains rest o then rest else o ∷ rest

abbrev load_rows : CustomerId → List OrderId → Database → List OrderRow
load_rows c [] db = []
load_rows c (o ∷ os) db = owned_row c (find_order_by_id o db) ++ load_rows c os db

unfoldable pub load_disclosed_order_rows : CustomerId → List OrderId → Database → List OrderRow
load_disclosed_order_rows c ids db = load_rows c (sort_by name_leb (without_repeats ids)) db

-- `_LoopPromptContext`
pub record LoopContext : Type 0 where
  pub case_row : CaseRow
  pub case_summary : CaseSummary
  pub customer_summary : CustomerSummary
  pub case_events : List StoredEvent
  pub order_seeds : List OrderSeedView

-- `_load_loop_prompt_context`
unfoldable pub load_loop_context : CaseId → Tx LoopContext
unfolding disclosed_order_ids load_disclosed_order_rows order_seed_view project_customer_summary
load_loop_context k = do
  found_case ← gets (λ w. find_case k w.db)
  case_row ← require found_case case_not_found
  found_customer ← gets (λ w. find_customer case_row.customer_id w.db)
  customer_row ← require found_customer customer_not_found
  events ← gets (λ w. load_customer_events case_row.customer_id w.db)
  at ← now
  let case_events = filter (λ e. e.case_id =? k) events
  let seed : CustomerSeed = record { customer_id = customer_row.id; email = customer_row.email }
  let summary = project_case_summary k case_row.customer_id events at
  let disclosed = if summary.orders_listed then disclosed_order_ids case_events else []
  rows ← gets (λ w. load_disclosed_order_rows case_row.customer_id disclosed w.db)
  pure (record {
    case_row = case_row;
    case_summary = summary;
    customer_summary = project_customer_summary seed events;
    case_events = case_events;
    order_seeds = map order_seed_view rows;
  })

-- `_loop_terminates_at_entry` on an open case: the step limit, then the parse limit.
unfoldable pub stops_at_limit : CaseId → CaseSummary → Tx Bool
stops_at_limit k s =
    if leb Config.max_agent_steps s.step_count
    then (do
      escalate_case k EscalationOrigin.step_limit
          (by_reason (text "Agent exceeded the maximum number of steps permitted for this case."))
      pure true)
    else if leb Config.max_invalid_outputs s.consecutive_invalid_outputs
    then (do
      escalate_case k EscalationOrigin.parse_limit
          (by_reason (text "Agent exceeded the maximum number of consecutive invalid outputs."))
      pure true)
    else pure false

unfoldable pub stops_in_status : CaseId → CaseSummary → CaseStatus → Tx Bool
unfolding stops_at_limit
stops_in_status k s CaseStatus.closed = pure true
stops_in_status k s CaseStatus.awaiting_approval = pure true
stops_in_status k s CaseStatus.awaiting_verification = pure true
stops_in_status k s CaseStatus.opened = stops_at_limit k s

abbrev pub loop_terminates_at_entry : CaseId → CaseSummary → Tx Bool
loop_terminates_at_entry k s = stops_in_status k s s.status

-- `prompt_envelope_violation` of agent/prompt.py
abbrev bytes_violation : ℕ → Option Text
bytes_violation size =
    if ltb Config.prompt_total_max_bytes size
    then some (text "Serialized prompt exceeds the configured UTF-8 byte envelope.")
    else none

unfoldable pub prompt_envelope_violation : Prompt → ℕ → Result (Option Text)
prompt_envelope_violation prompt order_count =
    let bytes = bind (encoded_length prompt.text) (λ size. ok (bytes_violation size)) in
    if ltb Config.authorized_order_count_max order_count
    then ok (some (text "Authorized order count exceeds the configured prompt envelope."))
    else bytes

module _ (env : Environment) (k : CaseId) where
  -- `append_invalid_output`
  unfoldable pub append_invalid_output : CaseRow → String → String → Tx StoredEvent
  unfolding bound_invalid_output_audit
  append_invalid_output case_row raw error = do
    audited ← lift (or_raise (bound_invalid_output_audit env.sha256 (codes raw)) value_error)
    append_canonical_event case_row.customer_id (some k) none Actor.system Channel.internal
        (Payload.invalid_output audited.0 audited.1 audited.2 error)

  -- The `match` on the outcome, after which the loop goes on.
  unfoldable pub handle_outcome : CaseRow → String → ParseOutcome → Tx Bool
  unfolding append_invalid_output
  handle_outcome case_row raw (ParseOutcome.parse_failure error) = do
    append_invalid_output case_row raw error
    pure false
  handle_outcome case_row raw (ParseOutcome.parse_success a) = do
    execute_agent_action k a
    pure false

  unfoldable pub handle_boundary : CaseRow → Option (String × ParseOutcome) → Tx Bool
  unfolding handle_outcome
  handle_boundary case_row none = pure true
  handle_boundary case_row (some (raw, outcome)) = handle_outcome case_row raw outcome

  -- From the prompt on; true when the loop returns.
  unfoldable pub consult_model : CaseRow → Prompt → Option Text → Tx Bool
  unfolding handle_boundary
  consult_model case_row prompt (some reason) = do
    escalate_case k EscalationOrigin.model_failure (by_reason reason)
    pure true
  consult_model case_row prompt none = do
    reply ← invoke_model_boundary env k prompt
    handle_boundary case_row reply

  unfoldable pub after_entry : LoopContext → Bool → Tx Bool
  unfolding consult_model prompt_envelope_violation build_prompt
  after_entry context true = pure true
  after_entry context false = do
    prompt ← lift (
        build_prompt context.case_summary context.customer_summary context.case_events
          context.order_seeds)
    violation ← lift (prompt_envelope_violation prompt (length context.order_seeds))
    consult_model context.case_row prompt violation

  -- One round of the loop: whether it returns, and the peers so far.
  unfoldable pub loop_round : List CaseId → Tx (Bool × List CaseId)
  unfolding after_entry
  loop_round peers = do
    found ← gets (λ w. find_case k w.db)
    case_row ← require found case_not_found
    reopened ← expire_due_refunds_for_customer case_row.customer_id
    context ← load_loop_context k
    at_entry ← loop_terminates_at_entry k context.case_summary
    stop ← after_entry context at_entry
    pure (stop, accumulate_peer_case_ids k reopened peers)

  -- `while True`, and the ids that the caller resumes.
  unfoldable pub run_agent_loop : ℕ → List CaseId → Tx (Option (List CaseId))
  unfolding loop_round
  run_agent_loop zero peers = pure none
  run_agent_loop (suc fuel) peers =
      let again = run_agent_loop fuel in
      do round ← loop_round peers; if round.0 then pure (some round.1) else again round.1
