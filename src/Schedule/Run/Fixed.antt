-- ===== src/Schedule/Run/Fixed.antt =====
-- What no step of a run changes: the edges and the ids of the nodes.
use mathlib.Core.Option.{some-injective}
use xgc_agent.Prelude.{◌≡◌, refl, some, none, List, [], ◌∷◌, arith, subst, string_eq, nat_eq}
use xgc_agent.Schedule.Graph.{Ptr, Node, NodeState, running, skipped, finished, failed}
use xgc_agent.Schedule.Lifecycle.{set_state}
use xgc_agent.Schedule.Decide.{Action, stays, skips, starts, refuses, schedule_node}
use xgc_agent.Schedule.Run.{
  Config, Task, enters, returned, sends, fails, branches, hands, Loop, receiving, finishing,
  stopped, scheduling, resending, failing, act, receive, loop_step, task_step, branch_state, Step,
  loops, works, executes, passes, returns_success, returns_error,
}

abbrev pub SameNode : Node → Node → Type 0
SameNode n n' = (n'.next ≡ n.next) × (n'.id ≡ n.id)

set_state-SameNode :
    (q p : Ptr) (st : NodeState) (h : Ptr → Node) → SameNode (h p) (set_state q st h p)
unfolding set_state
set_state-SameNode q p st h = ground arith

abbrev pub SameNodes : Config → Config → Type 0
SameNodes c c' = (p : Ptr) → SameNode (c.heap p) (c'.heap p)

act-SameNodes : (a : Action) (q : Ptr) (rest : List Ptr) (c : Config) → SameNodes c (act a q rest c)
unfolding act
act-SameNodes stays q rest c p = (refl, refl)
act-SameNodes (refuses x) q rest c p = (refl, refl)
act-SameNodes skips q rest c p = set_state-SameNode q p skipped c.heap
act-SameNodes starts q rest c p = set_state-SameNode q p running c.heap

loop_step-SameNodes :
    (l : Loop) (c : Config) {c' : Config} → loop_step l c ≡ some c' → SameNodes c c'
unfolding loop_step
loop_step-SameNodes stopped c h p = cc
loop_step-SameNodes receiving c h p = received c.done h
  where
    received : (ps : List Ptr) {d : Config} → receive ps c ≡ some d → SameNode (c.heap p) (d.heap p)
    received [] k = cc
    received (q ∷ qs) k = ground arith
loop_step-SameNodes finishing c h p = ground arith
loop_step-SameNodes (scheduling []) c h p = ground arith
loop_step-SameNodes (scheduling (q ∷ rest)) c h p =
    subst (SameNodes c) (some-injective _ _ h) (act-SameNodes (schedule_node c.heap q) q rest c) p
loop_step-SameNodes (resending q rest) c h p = ground arith
loop_step-SameNodes (failing x) c h p = ground arith

task_step-SameNodes :
    (t : Task) (c : Config) {ts : List Task} {c' : Config}
    → task_step t c ≡ some (ts, c')
    → SameNodes c c'
unfolding task_step
task_step-SameNodes (enters q) c h p = cc
task_step-SameNodes (returned q (some e)) c h p =
    ground (arith, set_state-SameNode q p failed c.heap)
task_step-SameNodes (returned q none) c h p =
    ground (arith, set_state-SameNode q p failed c.heap, set_state-SameNode q p finished c.heap)
task_step-SameNodes (sends q) c h p = ground arith
task_step-SameNodes (fails e) c h p = ground arith
task_step-SameNodes (branches ts []) c h p = ground arith
task_step-SameNodes (branches ts (q ∷ qs)) c h p =
    ground (arith, set_state-SameNode q p (branch_state ts (c.heap q).name) c.heap)
task_step-SameNodes (hands q ts qs) c h p = ground arith

pub Step-SameNodes : {c c' : Config} → Step c c' → SameNodes c c'
Step-SameNodes {c} (loops h) q = loop_step-SameNodes c.loop c h q
Step-SameNodes {c} (works before after t e h) q = task_step-SameNodes t c h q
Step-SameNodes (executes before after p r context e f o) q = (refl, refl)
Step-SameNodes (passes before after p e f) q = (refl, refl)
Step-SameNodes (returns_success e f) q = (refl, refl)
Step-SameNodes (returns_error x es e f) q = (refl, refl)
