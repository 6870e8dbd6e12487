-- ===== src/Api/Queue/Ends.antt =====
-- The queue of case loops ends: each turn takes one case, and takes in only cases that it has not seen.
use refundagent.Common.{
  length-append, All-mono, ℕ, zero, suc, ◌+◌, ◌≤◌, ◌<◌, ◌≡◌, ◌≢◌, Bool, true, false, Option, none,
  some, List, [], ◌∷◌, ◌++◌, length, refl, arith,
}
use refundagent.Config
use refundagent.Agent.Boundary.{Environment}
use refundagent.Agent.Loop.Ends.{IsAnswered, answered, ended, run_agent_loop-ends}
use refundagent.Agent.Loop.Known.{AllKnownOf, Returns-known}
use refundagent.Api.Keeps.{Keeps-turn}
use refundagent.Api.Queue.{
  unseen, after_turn, with_turn, may_run, case_may_run_agent_loop, run_if, queue_turn, drain_from,
  drain_agent_loop_queue,
}
use refundagent.Api.Queue.Measure.{remaining, remaining-le, remaining-unseen, length-unseen}
use refundagent.Domain.Texts.{CaseId}
use refundagent.Gate.Common.{case_ids}
use refundagent.Gate.Keeps.Operations.{Stable-Acts}
use refundagent.Store.Append.{bump_seq}
use refundagent.Store.Append.Order.{Counted, IsCounted, IsCounted-add, Counted-bump}
use refundagent.Store.Keeps.{Keeps, keeps_rules}
use refundagent.Store.Keeps.Rules.{store_rules}
use refundagent.Store.Keeps.Stable.{Stable, Both}
use refundagent.Store.Returns.{
  Returns, Returns-both, Returns-given, Returns-pure, Returns-bind, Returns-after,
  Returns-in_transaction,
}
use refundagent.Store.Rows.{CaseRow, Database}
use refundagent.Store.Session.{Tx, World}

-- A database with these cases, whose log is numbered by its counters.
abbrev pub HasCases : List CaseRow → Database → Type 0
HasCases cases db = (db.cases ≡ cases) × IsCounted db

HasCases-Stable : (cases : List CaseRow) → Stable (Both (HasCases cases))
HasCases-Stable cases = record {
  sends = record {
    writes = record {
      frames = record {
        on_time = λ w h. h;
        on_id = λ w h. h;
        on_commit = λ w h. (h.0, h.0);
        on_restore = λ v w q s h. (s.0, h.1);
      };
      on_event = λ c k o a ch p at id w catalogue h.
          ((h.0.0, IsCounted-add c w.db.sequences w.db.events _ h.0.1 refl refl), h.1);
      on_number = λ c w h. (
        (
          h.0.0,
          All-mono (Counted w.db.sequences) (Counted (bump_seq c w.db.sequences))
              (Counted-bump c w.db.sequences) w.db.events h.0.1,
        ),
        h.1,
      );
      on_status = λ from to sel w permitted selects h. h;
      on_refund = λ row w pending fresh free h. h;
    };
    on_sent = λ w o same h. h;
  };
  rolls = record { on_rollback = λ w h. (h.1, h.1) };
  on_paid = λ w o h. h;
}

module _ (env : Environment) (loop_fuel : ℕ) (enough : Config.max_agent_steps < loop_fuel)
    (cases : List CaseRow) where
  abbrev State : World → Type 0
  State = Both (HasCases cases)

  -- What a turn comes to.
  abbrev Turned : Option (List CaseId) → World → Type 0
  Turned out w = (out ≢ none) × AllKnownOf cases out

  Returns-run_if : (k : CaseId) (runs : Bool) → Returns State Turned (run_if env loop_fuel k runs)
  unfolding run_if
  Returns-run_if k false = Returns-pure _ (λ w h. (λ e. cc, tt))
  Returns-run_if k true =
      Returns-in_transaction (λ a w h. h) _
        (record {
          at = λ w out h returned. (
            λ stuck. ended _ (run_agent_loop-ends env k loop_fuel w h.0.1 enough) (cc),
            (Returns-known (Stable-Acts (HasCases-Stable cases)) cases (λ v g. g.0.0) env k
                  loop_fuel [] tt).at
                w out h returned,
          );
        })

  Keeps-may_run : (k : CaseId) (found : Option CaseRow) → Keeps State (may_run k found)
  unfolding may_run case_may_run_agent_loop
  Keeps-may_run k none = search keeps_rules
  Keeps-may_run k (some row) = search (store_rules, HasCases-Stable cases) depth 12

  Returns-turn : (k : CaseId) → Returns State Turned (queue_turn env loop_fuel k)
  unfolding queue_turn
  Returns-turn k =
      Returns-after _ _ (search keeps_rules)
        (λ found. Returns-after _ _ (Keeps-may_run k found) (λ runs. Returns-run_if k runs))

  Ended-with_turn : (k : CaseId) (out : Option (List CaseId)) → out ≢ none → with_turn k out ≢ none
  Ended-with_turn k none h = h
  Ended-with_turn k (some turns) h = λ e. cc

  abbrev ids : List CaseId
  ids = case_ids cases

  Returns-after_turn :
      (again : List CaseId → List CaseId → Tx (Option (List CaseId))) (fuel : ℕ) (k : CaseId)
      (seen queue : List CaseId) (peers : Option (List CaseId))
      → ((xs ys : List CaseId)
          → length ys + remaining xs ids ≤ fuel
          → Returns State (λ out _. out ≢ none) (again xs ys))
      → length queue + remaining seen ids ≤ fuel
      → (peers ≢ none) × AllKnownOf cases peers
      → Returns State (λ out _. out ≢ none) (after_turn again k seen queue peers)
  unfolding after_turn
  Returns-after_turn again fuel k seen queue none later room (going, known) = absurd (going refl)
  Returns-after_turn again fuel k seen queue (some peers) later room (going, known) =
      let fresh = unseen seen peers in
      Returns-bind (λ out _. out ≢ none) _ _
        (later (seen ++ fresh) (queue ++ fresh)
          (omega (arith, remaining-unseen ids seen peers known, length-append queue fresh)))
        (λ rest. record {
          at = λ w out h returned.
              (Returns-pure {P = λ v. rest ≢ none} {Q = λ o _. o ≢ none} (with_turn k rest)
                  (λ v g. Ended-with_turn k rest g)).at
                w out h returned;
        })

  Returns-drain :
      (fuel : ℕ) (seen queue : List CaseId)
      → length queue + remaining seen ids ≤ fuel
      → Returns State (λ out _. out ≢ none) (drain_from env loop_fuel fuel seen queue)
  unfolding drain_from
  Returns-drain fuel seen [] room = Returns-pure _ (λ w h e. cc)
  Returns-drain zero seen (k ∷ queue) room = absurd (omega arith)
  Returns-drain (suc fuel) seen (k ∷ queue) room =
      Returns-bind _ _ _
        (Returns-both _ (Keeps-turn (Stable-Acts (HasCases-Stable cases)) env loop_fuel k)
          (Returns-turn k))
        (λ peers. Returns-given _ _ _ (λ turned.
          Returns-after_turn (drain_from env loop_fuel fuel) fuel k seen queue peers
            (Returns-drain fuel) (omega arith) turned))

length-case_ids : (rows : List CaseRow) → length (case_ids rows) ≡ length rows
length-case_ids [] = refl
length-case_ids (row ∷ rows) = omega (arith, length-case_ids rows)

module _ (env : Environment) (loop_fuel : ℕ) where
  -- When the session sees the committed cases, no event of either log has a number above its
  -- customer's counter, each loop has more fuel than the most steps of a case, and the queue has
  -- fuel for the initial cases and all cases of the database together, the queue raises or returns
  -- the turns that it gave: it never runs out of fuel, whatever the model answers and whichever
  -- cases are reopened.
  pub drain-ends :
      (fuel : ℕ) (initial : List CaseId) (w : World)
      → Config.max_agent_steps < loop_fuel
      → length initial + length w.db.cases ≤ fuel
      → Both (HasCases w.db.cases) w
      → IsAnswered (drain_agent_loop_queue env loop_fuel fuel initial w).0
  unfolding drain_agent_loop_queue
  drain-ends fuel initial w enough room h =
      let queue = unseen [] initial in
      answered _ (λ out returned.
        (Returns-drain env loop_fuel enough w.db.cases fuel queue queue (
            omega (
              arith,
              length-unseen [] initial,
              remaining-le queue (case_ids w.db.cases),
              length-case_ids w.db.cases,
            ))).at
          w out h returned)
