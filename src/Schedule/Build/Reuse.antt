-- ===== src/Schedule/Build/Reuse.antt =====
-- Running a graph again. `resetForRun` visits the map `Graph`, and the nodes that
-- `AddConditionalNode` and `AddSubGraphNode` return never get into that map.
use xgc_agent.Prelude.{
  ℕ, ◌+◌, ◌%◌, ◌^◌, ◌<◌, ◌≡◌, ◌≢◌, String, false, nat_eq, none, some, List, [], ◌∷◌, arith, subst,
  string_eq,
}
use xgc_agent.Prelude.Maps.{insert}
use xgc_agent.Schedule.Graph.{
  Ptr, Scheduler, add_node, add_conditional_node, add_sub_graph_node, add_edge,
  add_conditional_edge, set_entry,
}
use xgc_agent.Schedule.Lifecycle.{set_exit}
use xgc_agent.Schedule.Lifecycle.Reset.{holds}
use xgc_agent.Schedule.Build.{
  Build, Builds, adds, adds_conditional, adds_sub_graph, adds_edge, adds_conditional_edge,
  sets_entry, sets_exit, done, then_build,
}
use xgc_agent.Schedule.Build.Invariant.{Inv}

-- A node that the map does not hold, and that is not the entry.
pub record IsOutside (p : Ptr) (s : Scheduler) : Type 0 where
  pub older : p < s.fresh
  pub unheld : holds p s.graph ≡ false
  pub inner : s.entry ≢ p

holds-insert_ne :
    (p q : Ptr) (id : ℕ) (m : List (ℕ × Ptr))
    → q ≢ p
    → holds p m ≡ false
    → holds p (insert id q m) ≡ false
unfolding insert
holds-insert_ne p q id [] h k = ground arith
holds-insert_ne p q id ((j, r) ∷ m) h k = ground (arith, holds-insert_ne p q id m h)

Build-IsOutside : {s t : Scheduler} (p : Ptr) → Build s t → IsOutside p s → IsOutside p t
unfolding add_node add_conditional_node add_sub_graph_node add_edge add_conditional_edge set_entry
    set_exit
Build-IsOutside {s} p (adds name type none e) o = absurd (ground arith)
Build-IsOutside {s} p (adds name type (some fn) e) o = ground (
  arith,
  holds-insert_ne p s.fresh 0 s.graph,
  holds-insert_ne p s.fresh ((s.id_gen + 1) % 2 ^ 32) s.graph,
)
Build-IsOutside {s} p (adds_conditional name cond e) o = ground arith
Build-IsOutside {s} p (adds_sub_graph name sub e) o = ground arith
Build-IsOutside {s} p (adds_edge from to hf ht e) o = ground arith
Build-IsOutside {s} p (adds_conditional_edge from to tag hf ht e) o =
    ground (arith, holds-insert_ne p s.fresh ((s.id_gen + 1) % 2 ^ 32) s.graph)
Build-IsOutside {s} p (sets_entry q hq e) o = ground arith
Build-IsOutside {s} p (sets_exit q hq e) o = ground arith

Builds-IsOutside : {s t : Scheduler} (p : Ptr) → Builds s t → IsOutside p s → IsOutside p t
Builds-IsOutside p done o = o
Builds-IsOutside p (then_build bs b) o = Build-IsOutside p b (Builds-IsOutside p bs o)

conditional_node-IsOutside :
    (name : String) (cond : ℕ) (s : Scheduler)
    → Inv s
    → IsOutside (add_conditional_node name cond s).0 (add_conditional_node name cond s).1
unfolding add_conditional_node
conditional_node-IsOutside name cond s v = record {
  older = omega arith;
  unheld = ground (arith, v.graph_allocated s.fresh);
  inner = omega (arith, v.entry_allocated);
}

-- Nothing that is built later puts a conditional node into the map or makes it the entry.
pub conditional_node_stays-IsOutside :
    (name : String) (cond : ℕ) (s : Scheduler) {p : Ptr} {t u : Scheduler}
    → Inv s
    → add_conditional_node name cond s ≡ (p, t)
    → Builds t u
    → IsOutside p u
conditional_node_stays-IsOutside name cond s {p} v e bs =
    Builds-IsOutside p bs
      (subst (λ r. IsOutside r.0 r.1) e (conditional_node-IsOutside name cond s v))
