-- ===== src/Agent/Loop/Peers.antt =====
-- The cases that a loop hands to the queue.
use refundagent.Common.{
  ℕ, zero, suc, ◌==◌, ◌||◌, false, Option, none, some, List, [], ◌∷◌, ◌++◌, contains, IsDistinct,
  contains-append, ◌≡◌, refl, inl, inr, arith, Bool-cases, eq_of_==,
}
use refundagent.Agent.Boundary.{Environment}
use refundagent.Agent.Loop.{accumulate_peer_case_ids, loop_round, run_agent_loop}
use refundagent.Domain.Result.{ok}
use refundagent.Domain.Texts.{CaseId}
use refundagent.Store.Delivers.{Delivers, Delivers-bind, Delivers-then, Delivers-pure, Delivers-if}
use refundagent.Store.Session.{World}

-- Each case once, and never the loop's own.
abbrev pub ArePeers : CaseId → List CaseId → Type 0
ArePeers k peers = (contains peers k ≡ false) × IsDistinct peers

IsDistinct-snoc :
    (ks : List CaseId) (k : CaseId)
    → contains ks k ≡ false
    → IsDistinct ks
    → IsDistinct (ks ++ k ∷ [])
IsDistinct-snoc [] k h d = (refl, tt)
IsDistinct-snoc (x ∷ xs) k h (once, d) = (
  ground (arith, h, once, eq_of_== k x, contains-append xs (k ∷ []) x),
  IsDistinct-snoc xs k (ground (arith, h)) d,
)

accumulate-ArePeers :
    (k : CaseId) (reopened peers : List CaseId)
    → ArePeers k peers
    → ArePeers k (accumulate_peer_case_ids k reopened peers)
unfolding accumulate_peer_case_ids
accumulate-ArePeers k [] peers h = h
accumulate-ArePeers k (p ∷ ps) peers (own, d) = elim (Bool-cases (p == k || contains peers p)) [
  | inl known ↦ rw known (accumulate-ArePeers k ps peers (own, d))
  | inr new ↦ rw new (
      accumulate-ArePeers k ps (peers ++ p ∷ []) (
        ground (arith, own, new, contains-append peers (p ∷ []) k),
        IsDistinct-snoc peers p (ground (arith, new)) d,
      ))
]

-- Of the peers that a loop that returned hands over.
abbrev ArePeersOf : CaseId → Option (List CaseId) → Type 0
ArePeersOf k none = Unit
ArePeersOf k (some peers) = ArePeers k peers

module _ (env : Environment) (k : CaseId) where
  Delivers-round :
      (peers : List CaseId)
      → ArePeers k peers
      → Delivers (λ r _. ArePeers k r.1) (loop_round env k peers)
  unfolding loop_round
  Delivers-round peers h = Delivers-bind _ _ (λ found. Delivers-bind _ _ (λ row.
      Delivers-bind _ _ (λ reopened. Delivers-bind _ _ (λ context. Delivers-bind _ _ (λ at_entry.
        Delivers-bind _ _
          (λ stop. Delivers-pure _ (λ w. accumulate-ArePeers k reopened peers h)))))))

  Delivers-run :
      (fuel : ℕ) (peers : List CaseId)
      → ArePeers k peers
      → Delivers (λ out _. ArePeersOf k out) (run_agent_loop env k fuel peers)
  unfolding run_agent_loop
  Delivers-run zero peers h = Delivers-pure _ (λ w. tt)
  Delivers-run (suc fuel) peers h =
      Delivers-then (λ r. ArePeers k r.1) _ _ (Delivers-round peers h)
        (λ r known.
          Delivers-if r.0 _ _ (Delivers-pure _ (λ w. known)) (Delivers-run fuel r.1 known))

  -- The cases that a returning loop hands over to be resumed, when it starts with none, are each
  -- named once, and the loop's own case is not among them.
  pub run_agent_loop-ArePeers :
      (fuel : ℕ) (peers : List CaseId) (w : World)
      → (run_agent_loop env k fuel [] w).0 ≡ ok (some peers)
      → ArePeers k peers
  run_agent_loop-ArePeers fuel peers w h = (Delivers-run fuel [] (refl, tt)).at w (some peers) h
