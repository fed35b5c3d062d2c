-- ===== src/Schedule/Build.antt =====
-- A client's calls of the operations that build a graph, as a relation between schedulers.
pub mod Invariant
pub mod Reuse
use xgc_agent.Prelude.{ℕ, ◌<◌, ◌≡◌, String, Option, none, some}
use xgc_agent.Schedule.Graph.{
  Ptr, Node, NodeType, NodeFn, Scheduler, Result, ok, add_node, add_conditional_node,
  add_sub_graph_node, add_edge, add_conditional_edge, set_entry,
}
use xgc_agent.Schedule.Lifecycle.{set_exit}

-- The nodes that a call is given are nodes of this scheduler.
pub data Build (s : Scheduler) : Scheduler → Type 0 where
  adds :
      (name : String) (type : NodeType) (fn : Option NodeFn) {p : Ptr} {t : Scheduler}
      → add_node name type fn s ≡ ok (p, t)
      → Build s t
  adds_conditional :
      (name : String) (cond : ℕ) {p : Ptr} {t : Scheduler}
      → add_conditional_node name cond s ≡ (p, t)
      → Build s t
  adds_sub_graph :
      (name : String) (sub : ℕ) {p : Ptr} {t : Scheduler}
      → add_sub_graph_node name sub s ≡ (p, t)
      → Build s t
  adds_edge :
      (from to : Ptr) {t : Scheduler}
      → from < s.fresh
      → to < s.fresh
      → add_edge (some from) (some to) s ≡ ok t
      → Build s t
  adds_conditional_edge :
      (from to : Ptr) (tag : String) {t : Scheduler}
      → from < s.fresh
      → to < s.fresh
      → add_conditional_edge (some from) (some to) tag s ≡ ok t
      → Build s t
  sets_entry : (p : Ptr) {t : Scheduler} → p < s.fresh → set_entry p s ≡ t → Build s t
  sets_exit : (p : Ptr) {t : Scheduler} → p < s.fresh → set_exit p s ≡ some t → Build s t

pub data Builds (s : Scheduler) : Scheduler → Type 0 where
  done : Builds s s
  then_build : {t u : Scheduler} → Builds s t → Build t u → Builds s u
