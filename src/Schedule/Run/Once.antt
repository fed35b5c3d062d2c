-- ===== src/Schedule/Run/Once.antt =====
-- In one run no node is executed twice.
use mathlib.Core.Option.{some-injective}
use xgc_agent.Prelude.{
  ◌+◌, ◌≡◌, refl, ◌⊎◌, true, false, none, some, List, [], ◌∷◌, arith, count, subst, string_eq,
}
use xgc_agent.Schedule.Graph.{Ptr, running, skipped, finished, failed}
use xgc_agent.Schedule.Lifecycle.Reset.{state-set_state}
use xgc_agent.Schedule.Decide.{
  Action, stays, skips, starts, refuses, schedule_node, is_pending, starts_iff,
}
use xgc_agent.Schedule.Run.{
  Config, Task, enters, returned, sends, fails, branches, hands, Loop, receiving, finishing,
  stopped, scheduling, resending, failing, act, receive, loop_step, task_step, branch_state, Step,
  loops, works, executes, passes, returns_success, returns_error, Reach, here, next_step,
}

-- How one step can change the state of a node and the number of its starts.
pub record Moves (p : Ptr) (c c' : Config) : Type 0 where
  pub kept : is_pending (c'.heap p).state ≡ true → is_pending (c.heap p).state ≡ true
  pub counted :
      (count p c'.started ≡ count p c.started)
      ⊎ ((count p c'.started ≡ count p c.started + 1)
          × (is_pending (c.heap p).state ≡ true)
          × (is_pending (c'.heap p).state ≡ false))

act-Moves :
    (p q : Ptr) (rest : List Ptr) (c : Config) → Moves p c (act (schedule_node c.heap q) q rest c)
unfolding act
act-Moves p q rest c = go (schedule_node c.heap q) refl
  where
    go : (a : Action) → schedule_node c.heap q ≡ a → Moves p c (act a q rest c)
    go stays e = ground arith
    go (refuses x) e = ground arith
    go skips e = ground (arith, state-set_state q p skipped c.heap)
    go starts e = ground (arith, state-set_state q p running c.heap, (starts_iff c.heap q).0 e)

loop_step-Moves :
    (p : Ptr) (l : Loop) (c : Config) {c' : Config} → loop_step l c ≡ some c' → Moves p c c'
unfolding loop_step
loop_step-Moves p stopped c e = cc
loop_step-Moves p (scheduling (q ∷ rest)) c e =
    subst (Moves p c) (some-injective _ _ e) (act-Moves p q rest c)
loop_step-Moves p receiving c e = received c.done e
  where
    received : (ps : List Ptr) {d : Config} → receive ps c ≡ some d → Moves p c d
    received [] h = cc
    received (q ∷ qs) h = ground arith
loop_step-Moves p finishing c e = ground arith
loop_step-Moves p (scheduling []) c e = ground arith
loop_step-Moves p (resending q rest) c e = ground arith
loop_step-Moves p (failing x) c e = ground arith

-- What a goroutine does to its own node leaves no pending state behind.
task_step-Moves :
    (p : Ptr) (t : Task) (c : Config) {ts : List Task} {c' : Config}
    → task_step t c ≡ some (ts, c')
    → Moves p c c'
unfolding task_step
task_step-Moves p (enters q) c e = cc
task_step-Moves p (returned q (some x)) c e = ground (arith, state-set_state q p failed c.heap)
task_step-Moves p (returned q none) c e =
    ground (arith, state-set_state q p failed c.heap, state-set_state q p finished c.heap)
task_step-Moves p (sends q) c e = ground arith
task_step-Moves p (fails x) c e = ground arith
task_step-Moves p (branches ts []) c e = ground arith
task_step-Moves p (branches ts (q ∷ qs)) c e =
    ground (arith, state-set_state q p (branch_state ts (c.heap q).name) c.heap)
task_step-Moves p (hands q ts qs) c e = ground arith

-- No step makes a node pending, and a step that starts a node finds it pending and leaves it running.
pub Step-Moves : {c c' : Config} (p : Ptr) → Step c c' → Moves p c c'
Step-Moves {c} p (loops e) = loop_step-Moves p c.loop c e
Step-Moves {c} p (works before after t {ts} {c'} e f) =
    let m = task_step-Moves p t c f in record { kept = m.kept; counted = m.counted }
Step-Moves p (executes before after q r context e v o) = ground arith
Step-Moves p (passes before after q e v) = ground arith
Step-Moves p (returns_success e f) = ground arith
Step-Moves p (returns_error x es e f) = ground arith

-- A node that is not pending when a run starts is never executed in it.
pub unpending_not_started :
    {c c' : Config} (p : Ptr)
    → Reach c c'
    → is_pending (c.heap p).state ≡ false
    → (is_pending (c'.heap p).state ≡ false) × (count p c'.started ≡ count p c.started)
unpending_not_started p here h = (h, refl)
unpending_not_started p (next_step r st) h =
    ground (arith, unpending_not_started p r h, Step-Moves p st)
