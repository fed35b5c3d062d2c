-- ===== src/Schedule/Lifecycle.antt =====
-- `NewScheduler`, `SetExit`, `resetForRun` and `setState` of schedule/graph.go and schedule/node.go.
pub mod Reset
use xgc_agent.Prelude.{ℕ, String, ◌=?◌, nat_eq, Option, none, some, List, [], ◌∷◌}
use xgc_agent.Prelude.Maps.{Map, lookup, insert}
use xgc_agent.Schedule.Graph.{
  Ptr, Node, NodeState, pending, normal, start_node, end_node, Scheduler, Result, ok, err, update,
  start_node_flag, end_node_flag, start_node_id, end_node_id, add_node, link, append_next,
  append_prev,
}

unfoldable pub set_state : Ptr → NodeState → (Ptr → Node) → Ptr → Node
unfolding update
set_state p st heap = update p (λ n. record n { state = st }) heap

abbrev empty_scheduler : Scheduler
empty_scheduler = record {
  heap = λ _. record {
    name = "";
    type = normal;
    fn = start_node;
    state = pending;
    prev = [];
    next = [];
    id = 0;
  };
  fresh = 0;
  graph = [];
  entry = 0;
  id_gen = 0;
}

-- `endNode.id = endNodeID`, and its entry in the map.
place_end : Ptr × Scheduler → Scheduler
unfolding update
place_end (p, s) = record s {
  heap = update p (λ n. record n { id = end_node_id }) s.heap;
  graph = insert end_node_id p s.graph;
}

place_entry : Ptr × Scheduler → Scheduler
place_entry (p, s) = record s { entry = p; graph = insert start_node_id p s.graph }

unfoldable pub new_scheduler : Result Scheduler
unfolding add_node place_entry place_end
new_scheduler = elim (add_node start_node_flag normal (some start_node) empty_scheduler) [
  | err e ↦ err e
  | ok r ↦ elim (add_node end_node_flag normal (some end_node) (place_entry r)) [
    | err e ↦ err e
    | ok q ↦ ok (place_end q)
  ]
]

-- `none` is the panic on a map with no end node.
unfoldable pub set_exit : Ptr → Scheduler → Option Scheduler
unfolding append_next append_prev
set_exit p s = elim (lookup end_node_id s.graph) [ none ↦ none | some e ↦ some (link p e s) ]

unfoldable pub reset_nodes : List (ℕ × Ptr) → (Ptr → Node) → Ptr → Node
unfolding set_state
reset_nodes [] heap = heap
reset_nodes ((id, p) ∷ rest) heap = reset_nodes rest (set_state p pending heap)

-- The fresh `GraphState` is the initial configuration of `Schedule.Run`.
unfoldable pub reset_for_run : Scheduler → Scheduler
unfolding reset_nodes set_state
reset_for_run s = record s { heap = reset_nodes s.graph (set_state s.entry pending s.heap) }
