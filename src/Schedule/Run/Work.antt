-- ===== src/Schedule/Run/Work.antt =====
-- How much work the messages, the goroutines and the control loop of a run still have before them,
-- and that every step takes some of it, where the edges of the graph lead to smaller ranks.
use mathlib.Core.Option.{some-injective}
use xgc_agent.Prelude.{
  ℕ, zero, suc, ◌+◌, ◌≤◌, ◌<◌, ◌≡◌, refl, ap, true, false, none, some, List, [], ◌∷◌, ◌++◌, arith,
  subst, string_eq, nat_eq, length, Bool,
}
use xgc_agent.Schedule.Graph.{Ptr, Node}
use xgc_agent.Schedule.Decide.{Action, stays, skips, starts, refuses, schedule_node}
use xgc_agent.Schedule.Run.{
  Config, Task, enters, returned, sends, fails, branches, hands, Loop, receiving, finishing,
  stopped, scheduling, resending, failing, act, receive, loop_step, task_step, Step, loops, works,
  executes, passes, returns_success, returns_error,
}

-- What is to be done for the successors of a node that is received, where `w` says it for each.
abbrev pub visit : (Ptr → ℕ) → List Ptr → ℕ
visit w [] = 0
visit w (q ∷ qs) = 6 + w q + visit w qs

-- The steps that the message of a node can cause, along all paths of at most `k` edges.
unfoldable pub work : (Ptr → Node) → ℕ → Ptr → ℕ
work heap zero p = 3
work heap (suc k) p = 3 + visit (work heap k) (heap p).next

abbrev total : (Ptr → ℕ) → List Ptr → ℕ
total w [] = 0
total w (p ∷ ps) = w p + total w ps

abbrev task_work : (Ptr → ℕ) → Task → ℕ
task_work w (enters p) = 5 + w p
task_work w (returned p r) = 4 + w p
task_work w (sends p) = 1 + w p
task_work w (fails e) = 2
task_work w (branches ts qs) = 2 + visit w qs
task_work w (hands q ts qs) = 5 + w q + visit w qs

abbrev tasks_work : (Ptr → ℕ) → List Task → ℕ
tasks_work w [] = 0
tasks_work w (t ∷ ts) = task_work w t + tasks_work w ts

abbrev loop_work : (Ptr → ℕ) → Loop → ℕ
loop_work w receiving = 0
loop_work w finishing = 2
loop_work w stopped = 0
loop_work w (scheduling qs) = 2 + visit w qs
loop_work w (resending q qs) = 5 + w q + visit w qs
loop_work w (failing e) = 2

abbrev signal_work : Bool → ℕ
signal_work true = 1
signal_work false = 0

-- All but the work of the goroutines.
abbrev others_work : (Ptr → ℕ) → Config → ℕ
others_work w c =
    total w c.done + loop_work w c.loop + signal_work c.finished_signal + length c.errors

abbrev pub remaining : (Ptr → ℕ) → Config → ℕ
remaining w c = others_work w c + tasks_work w c.tasks

total-append : (w : Ptr → ℕ) (xs ys : List Ptr) → total w (xs ++ ys) ≡ total w xs + total w ys
total-append w [] ys = omega arith
total-append w (x ∷ xs) ys = omega (arith, total-append w xs ys)

tasks_work-append :
    (w : Ptr → ℕ) (xs ys : List Task) → tasks_work w (xs ++ ys) ≡ tasks_work w xs + tasks_work w ys
tasks_work-append w [] ys = omega arith
tasks_work-append w (x ∷ xs) ys = omega (arith, tasks_work-append w xs ys)

-- A weight of the nodes that pays for their successors.
abbrev pub Pays : (Ptr → ℕ) → (Ptr → Node) → Type 0
Pays w heap = (p : Ptr) → 3 + visit w (heap p).next ≤ w p

act-remaining :
    (w : Ptr → ℕ) (a : Action) (q : Ptr) (rest : List Ptr) (c : Config)
    → c.loop ≡ scheduling (q ∷ rest)
    → remaining w (act a q rest c) < remaining w c
unfolding act
act-remaining w stays q rest c e = rw e (omega arith)
act-remaining w (refuses x) q rest c e = rw e (omega arith)
act-remaining w skips q rest c e = rw e (omega arith)
act-remaining w starts q rest c e = rw e (omega arith)

received-remaining :
    (w : Ptr → ℕ) (ps : List Ptr) (c : Config) {c' : Config}
    → Pays w c.heap
    → c.done ≡ ps
    → c.loop ≡ receiving
    → receive ps c ≡ some c'
    → remaining w c' < remaining w c
unfolding receive
received-remaining w [] c v d e h = cc
received-remaining w (p ∷ ps) c v d e h = ground (arith, v p)

-- A step of the control loop.
loop_step-remaining :
    (w : Ptr → ℕ) (l : Loop) (c : Config) {c' : Config}
    → Pays w c.heap
    → c.loop ≡ l
    → loop_step l c ≡ some c'
    → remaining w c' < remaining w c
unfolding loop_step
loop_step-remaining w stopped c v e h = cc
loop_step-remaining w receiving c v e h = received-remaining w c.done c v refl e h
loop_step-remaining w finishing c v e h = ground arith
loop_step-remaining w (scheduling []) c v e h = ground arith
loop_step-remaining w (scheduling (q ∷ rest)) c v e h =
    subst (λ d. remaining w d < remaining w c) (some-injective _ _ h)
      (act-remaining w (schedule_node c.heap q) q rest c e)
loop_step-remaining w (resending q rest) c v e h = ground (arith, total-append w c.done (q ∷ []))
loop_step-remaining w (failing x) c v e h = ground arith

-- A step of a goroutine whose node has been executed.
task_step-others_work :
    (w : Ptr → ℕ) (t : Task) (c : Config) {ts : List Task} {c' : Config}
    → Pays w c.heap
    → task_step t c ≡ some (ts, c')
    → others_work w c' + tasks_work w ts < others_work w c + task_work w t
unfolding task_step
task_step-others_work w (enters p) c v h = cc
task_step-others_work w (returned p (some e)) c v h = ground arith
task_step-others_work w (returned p none) c v h = ground (arith, v p)
task_step-others_work w (sends p) c v h = ground (arith, total-append w c.done (p ∷ []))
task_step-others_work w (fails e) c v h = ground arith
task_step-others_work w (branches ts []) c v h = ground arith
task_step-others_work w (branches ts (q ∷ qs)) c v h = ground arith
task_step-others_work w (hands q ts qs) c v h = ground (arith, total-append w c.done (q ∷ []))

-- Every step takes some of the work.
pub Step-remaining :
    (w : Ptr → ℕ) {c c' : Config} → Pays w c.heap → Step c c' → remaining w c' < remaining w c
Step-remaining w {c} v (loops h) = loop_step-remaining w c.loop c v refl h
Step-remaining w {c} v (works before after t {ts} {c'} e h) = omega (
  arith,
  task_step-others_work w t c v h,
  ap (tasks_work w) e,
  tasks_work-append w before (t ∷ after),
  tasks_work-append w (before ++ ts) after,
  tasks_work-append w before ts,
)
Step-remaining w {c} v (executes before after p r context e f o) = omega (
  arith,
  ap (tasks_work w) e,
  tasks_work-append w before (enters p ∷ after),
  tasks_work-append w before (returned p r ∷ after),
)
Step-remaining w {c} v (passes before after p e f) = omega (
  arith,
  ap (tasks_work w) e,
  tasks_work-append w before (enters p ∷ after),
  tasks_work-append w before after,
)
Step-remaining w {c} v (returns_success e f) = ground arith
Step-remaining w {c} v (returns_error x es e f) = ground arith
