-- ===== src/Schedule/Lifecycle/Reset.antt =====
-- What `resetForRun` resets.
use xgc_agent.Prelude.{
  ℕ, ◌≡◌, refl, Bool, true, false, ◌==◌, nat_eq, List, [], ◌∷◌, arith, if◌then◌else◌,
}
use xgc_agent.Schedule.Graph.{Ptr, Node, NodeState, pending, Scheduler}
use xgc_agent.Schedule.Lifecycle.{set_state, reset_nodes, reset_for_run}

-- An address that the map of the graph holds.
abbrev pub holds : Ptr → List (ℕ × Ptr) → Bool
holds p [] = false
holds p ((id, q) ∷ rest) = if q == p then true else holds p rest

pub state-set_state :
    (p q : Ptr) (st : NodeState) (h : Ptr → Node)
    → (set_state p st h q).state ≡ (if p == q then st else (h q).state)
unfolding set_state
state-set_state p q st h = ground arith

state-reset_nodes :
    (m : List (ℕ × Ptr)) (h : Ptr → Node) (p : Ptr)
    → (reset_nodes m h p).state ≡ (if holds p m then pending else (h p).state)
unfolding reset_nodes set_state
state-reset_nodes [] h p = refl
state-reset_nodes ((id, q) ∷ rest) h p =
    ground (arith, state-reset_nodes rest (set_state q pending h) p)

-- After a reset the entry and every node of the map are pending, and every other node has the state
-- that it had before.
pub state-reset_for_run :
    (s : Scheduler) (p : Ptr)
    → ((reset_for_run s).heap p).state
      ≡ (if s.entry == p then pending else if holds p s.graph then pending else (s.heap p).state)
unfolding reset_for_run
state-reset_for_run s p = ground (
  arith,
  state-reset_nodes s.graph (set_state s.entry pending s.heap) p,
  state-set_state s.entry p pending s.heap,
)
