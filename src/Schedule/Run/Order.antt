-- ===== src/Schedule/Run/Order.antt =====
-- The order in which a run starts its nodes.
use mathlib.Core.Option.{some-injective}
use xgc_agent.Prelude.{
  ◌<◌, ◌≡◌, refl, ◌⊎◌, inl, inr, true, false, none, some, List, [], ◌∷◌, arith, count, subst,
  string_eq, Bool-cases, ◌==◌, ==_iff,
}
use xgc_agent.Schedule.Graph.{Ptr}
use xgc_agent.Schedule.Decide.{
  Action, stays, skips, starts, refuses, schedule_node, is_pending, all_settled, all_skipped,
  is_empty, starts_iff,
}
use xgc_agent.Schedule.Run.{
  Config, Task, enters, returned, sends, fails, branches, hands, Loop, receiving, finishing,
  stopped, scheduling, resending, failing, act, receive, loop_step, task_step, Step, loops, works,
  executes, passes, returns_success, returns_error,
}

-- Either the number of starts of the node stays, or the control loop found it to be started.
abbrev Started : Ptr → Config → Config → Type 0
Started p c c' = (count p c'.started ≡ count p c.started) ⊎ (schedule_node c.heap p ≡ starts)

act-Started :
    (p q : Ptr) (rest : List Ptr) (c : Config) → Started p c (act (schedule_node c.heap q) q rest c)
unfolding act
act-Started p q rest c = go (schedule_node c.heap q) refl
  where
    go : (a : Action) → schedule_node c.heap q ≡ a → Started p c (act a q rest c)
    go stays e = inl refl
    go (refuses x) e = inl refl
    go skips e = inl refl
    go starts e = elim (Bool-cases (q == p)) [
      | inl same ↦ inr (subst (λ n. schedule_node c.heap n ≡ starts) ((==_iff q p).0 same) e)
      | inr differs ↦ inl (ground (arith, differs))
    ]

loop_step-Started :
    (p : Ptr) (l : Loop) (c : Config) {c' : Config} → loop_step l c ≡ some c' → Started p c c'
unfolding loop_step
loop_step-Started p stopped c e = cc
loop_step-Started p (scheduling (q ∷ rest)) c e =
    subst (Started p c) (some-injective _ _ e) (act-Started p q rest c)
loop_step-Started p receiving c e = received c.done e
  where
    received : (ps : List Ptr) {d : Config} → receive ps c ≡ some d → Started p c d
    received [] h = cc
    received (q ∷ qs) h = ground arith
loop_step-Started p finishing c e = ground arith
loop_step-Started p (scheduling []) c e = ground arith
loop_step-Started p (resending q rest) c e = ground arith
loop_step-Started p (failing x) c e = ground arith

task_step-Started :
    (p : Ptr) (t : Task) (c : Config) {ts : List Task} {c' : Config}
    → task_step t c ≡ some (ts, c')
    → count p c'.started ≡ count p c.started
unfolding task_step
task_step-Started p (enters q) c e = cc
task_step-Started p (returned q (some x)) c e = ground arith
task_step-Started p (returned q none) c e = ground arith
task_step-Started p (sends q) c e = ground arith
task_step-Started p (fails x) c e = ground arith
task_step-Started p (branches ts []) c e = ground arith
task_step-Started p (branches ts (q ∷ qs)) c e = ground arith
task_step-Started p (hands q ts qs) c e = ground arith

Step-Started : {c c' : Config} (p : Ptr) → Step c c' → Started p c c'
Step-Started {c} p (loops e) = loop_step-Started p c.loop c e
Step-Started {c} p (works before after t {ts} {c'} e f) = inl (task_step-Started p t c f)
Step-Started p (executes before after q r context e v o) = inl refl
Step-Started p (passes before after q e v) = inl refl
Step-Started p (returns_success e f) = inl refl
Step-Started p (returns_error x es e f) = inl refl

-- Whatever step of a run starts a node, one of the control loop or of a goroutine, the node is
-- pending before it, its predecessors have all finished or been skipped, and if it has any they
-- were not all skipped.
pub Step-starts :
    {c c' : Config} (p : Ptr)
    → Step c c'
    → count p c.started < count p c'.started
    → (is_pending (c.heap p).state ≡ true)
      × (all_settled c.heap (c.heap p).prev ≡ true)
      × ((is_empty (c.heap p).prev ≡ true) ⊎ (all_skipped c.heap (c.heap p).prev ≡ false))
Step-starts {c} p st h = elim (Step-Started p st) [
  | inl same ↦ absurd (omega (arith, same, h))
  | inr e ↦ (starts_iff c.heap p).0 e
]
