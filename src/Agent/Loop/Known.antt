-- ===== src/Agent/Loop/Known.antt =====
-- agent/loop.py: the cases that the loop hands to the queue are cases of the database.
use refundagent.Common.{
  ℕ, zero, suc, ◌==◌, ◌||◌, Option, none, some, List, [], ◌∷◌, ◌++◌, contains, All-append, ◌≡◌, inl,
  inr, Bool-cases,
}
use refundagent.Agent.Boundary.{Environment}
use refundagent.Agent.Loop.{accumulate_peer_case_ids, loop_round, run_agent_loop}
use refundagent.Agent.Loop.Keeps.{Keeps-round}
use refundagent.Domain.Texts.{CaseId}
use refundagent.Gate.Keeps.Operations.{Acts}
use refundagent.Gate.Sweep.{AllKnown, Returns-expire}
use refundagent.Store.Keeps.{keeps_rules}
use refundagent.Store.Returns.{
  Returns, Returns-both, Returns-given, Returns-pure, Returns-bind, Returns-after, Returns-if,
}
use refundagent.Store.Rows.{CaseRow}
use refundagent.Store.Session.{World}

accumulate-AllKnown :
    (cases : List CaseRow) (k : CaseId) (reopened peers : List CaseId)
    → AllKnown cases reopened
    → AllKnown cases peers
    → AllKnown cases (accumulate_peer_case_ids k reopened peers)
unfolding accumulate_peer_case_ids
accumulate-AllKnown cases k [] peers h known = known
accumulate-AllKnown cases k (p ∷ ps) peers (h, hs) known =
    elim (Bool-cases (p == k || contains peers p)) [
      | inl old ↦ rw old (accumulate-AllKnown cases k ps peers hs known)
      | inr new ↦ rw new (
          accumulate-AllKnown cases k ps (peers ++ p ∷ []) hs
            (All-append _ peers (p ∷ []) known (h, tt)))
    ]

abbrev pub AllKnownOf : List CaseRow → Option (List CaseId) → Type 0
AllKnownOf cases none = Unit
AllKnownOf cases (some ks) = AllKnown cases ks

module _ {P : World → Type 0} (ac : Acts P) (cases : List CaseRow)
    (fixed : (w : World) → P w → w.db.cases ≡ cases) (env : Environment) (k : CaseId) where
  Returns-peers :
      (peers : List CaseId)
      → AllKnown cases peers
      → Returns P (λ r _. AllKnown cases r.1) (loop_round env k peers)
  unfolding loop_round
  Returns-peers peers known = Returns-after _ _ (search keeps_rules) (λ found.
      Returns-after _ _ (search keeps_rules) (λ row.
        Returns-bind _ _ _ (Returns-expire ac.sends.writes cases fixed row.customer_id) (λ reopened.
          Returns-after _ _ (record { at = λ w h. h })
            (λ context.
              Returns-after _ _ (record { at = λ w h. h })
                (λ at_entry.
                  Returns-after _ _ (record { at = λ w h. h })
                    (λ stop.
                      Returns-pure _
                        (λ w h. accumulate-AllKnown cases k reopened peers h known)))))))

  pub Returns-known :
      (fuel : ℕ) (peers : List CaseId)
      → AllKnown cases peers
      → Returns P (λ out _. AllKnownOf cases out) (run_agent_loop env k fuel peers)
  unfolding run_agent_loop
  Returns-known zero peers known = Returns-pure _ (λ w h. tt)
  Returns-known (suc fuel) peers known =
      Returns-bind _ _ _ (Returns-both _ (Keeps-round ac env k peers) (Returns-peers peers known))
        (λ r.
          Returns-given (AllKnown cases r.1) _ _ (λ told.
            Returns-if r.0 _ _ (Returns-pure _ (λ w h. told)) (Returns-known fuel r.1 told)))
