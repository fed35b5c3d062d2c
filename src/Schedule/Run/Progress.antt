-- ===== src/Schedule/Run/Progress.antt =====
-- Where a run that has not returned can wait forever.
use xgc_agent.Prelude.{
  ◌≤◌, ◌≡◌, ◌≢◌, refl, true, false, Option, none, some, List, [], ◌∷◌, arith, Bool-cases,
  Option-cases, inl, inr, ◌⊎◌, length, subst, Bool, nat_eq, string_eq,
}
use mathlib.Core.Option.{some-injective}
use xgc_agent.Prelude.Maps.{insert}
use xgc_agent.Schedule.Graph.{
  Ptr, NodeFn, start_node, end_node, conditional_virtual_node, user, conditional_node,
  sub_graph_node, Scheduler,
}
use xgc_agent.Schedule.Decide.{Action, stays, skips, starts, refuses, schedule_node}
use xgc_agent.Schedule.Run.{
  Config, Context, Error, Task, enters, returned, sends, fails, branches, hands, Loop, receiving,
  finishing, stopped, scheduling, resending, failing, act, receive, loop_step, task_step, Step,
  loops, works, executes, passes, returns_success, returns_error, Outcome, is_virtual,
  done_capacity, Reach, here, next_step, start_run, condition_key, tags,
}

abbrev has_error : List Error → Bool
has_error [] = false
has_error (e ∷ es) = true

-- The signal is given when the loop stops, and a loop that has stopped has given it or an error.
record Inv (c : Config) : Type 0 where
  signalled : c.finished_signal ≡ true → c.loop ≡ stopped
  reported :
      c.loop ≡ stopped → c.result ≡ none → c.finished_signal ≡ false → has_error c.errors ≡ true

-- The loop is not stopped.
moving-Inv : {c : Config} → c.finished_signal ≡ false → c.loop ≢ stopped → Inv c
moving-Inv h k = record { signalled = λ e. cc; reported = λ e. absurd (k e) }

act-Inv :
    (a : Action) (q : Ptr) (rest : List Ptr) (c : Config)
    → c.finished_signal ≡ false
    → Inv (act a q rest c)
unfolding act
act-Inv stays q rest c h = moving-Inv h (λ e. cc)
act-Inv (refuses x) q rest c h = moving-Inv h (λ e. cc)
act-Inv skips q rest c h = moving-Inv h (λ e. cc)
act-Inv starts q rest c h = moving-Inv h (λ e. cc)

-- A loop that moves has not given the signal.
unsignalled : {c : Config} → Inv c → c.loop ≢ stopped → c.finished_signal ≡ false
unsignalled {c} v k = elim (Bool-cases c.finished_signal) [
  | inl given ↦ absurd (k (v.signalled given))
  | inr not_yet ↦ not_yet
]

loop_step-Inv :
    (l : Loop) (c : Config) {c' : Config} → c.loop ≡ l → Inv c → loop_step l c ≡ some c' → Inv c'
unfolding loop_step
loop_step-Inv stopped c e v h = cc
loop_step-Inv receiving c e v h = received c.done h
  where
    received : (ps : List Ptr) {d : Config} → receive ps c ≡ some d → Inv d
    received [] k = cc
    received (q ∷ qs) k = ground (arith, v.signalled, v.reported)
loop_step-Inv finishing c e v h = ground (arith, v.signalled, v.reported)
loop_step-Inv (scheduling []) c e v h = ground (arith, v.signalled, v.reported)
loop_step-Inv (scheduling (q ∷ rest)) c e v h =
    subst Inv (some-injective _ _ h)
      (act-Inv (schedule_node c.heap q) q rest c (unsignalled v λ k. cc))
loop_step-Inv (resending q rest) c e v h = ground (arith, v.signalled, v.reported)
loop_step-Inv (failing x) c e v h = ground (arith, v.signalled, v.reported)

task_step-Inv :
    (t : Task) (c : Config) {ts : List Task} {c' : Config}
    → Inv c
    → task_step t c ≡ some (ts, c')
    → Inv c'
unfolding task_step
task_step-Inv (enters q) c v h = cc
task_step-Inv (returned q (some e)) c v h = ground (arith, v.signalled, v.reported)
task_step-Inv (returned q none) c v h = ground (arith, v.signalled, v.reported)
task_step-Inv (sends q) c v h = ground (arith, v.signalled, v.reported)
task_step-Inv (fails e) c v h = ground (arith, v.signalled, v.reported)
task_step-Inv (branches ts []) c v h = ground (arith, v.signalled, v.reported)
task_step-Inv (branches ts (q ∷ qs)) c v h = ground (arith, v.signalled, v.reported)
task_step-Inv (hands q ts qs) c v h = ground (arith, v.signalled, v.reported)

Step-Inv : {c c' : Config} → Step c c' → Inv c → Inv c'
Step-Inv {c} (loops h) v = loop_step-Inv c.loop c refl v h
Step-Inv {c} (works before after t {ts} {c'} e h) v =
    let kept : Inv c' = task_step-Inv t c v h in
    record { signalled = kept.signalled; reported = kept.reported }
Step-Inv (executes before after p r context e f o) v = record {
  signalled = v.signalled;
  reported = v.reported;
}
Step-Inv (passes before after p e f) v = record { signalled = v.signalled; reported = v.reported }
Step-Inv (returns_success e f) v = record { signalled = λ h. cc; reported = λ h k. cc }
Step-Inv (returns_error x es e f) v = record { signalled = v.signalled; reported = λ h k. cc }

Reach-Inv : {c c' : Config} → Reach c c' → Inv c → Inv c'
Reach-Inv here v = v
Reach-Inv (next_step r st) v = Step-Inv st (Reach-Inv r v)

-- Every function of a node can return something.
an_outcome : (f : NodeFn) (c : Context) → (r : Option Error) × (c' : Context) × Outcome f c r c'
an_outcome start_node c = (none, c, (refl, refl))
an_outcome end_node c = (none, c, (refl, refl))
an_outcome conditional_virtual_node c = (none, c, (refl, refl))
an_outcome (user n) c = (none, c, tt)
an_outcome (sub_graph_node n) c = (none, c, tt)
an_outcome (conditional_node id cond) c =
    (none, insert (condition_key id) (tags []) c, inr ([], c, refl, refl))

abbrev pub CanMove : Config → Type 0
CanMove c = (c' : Config) × Step c c'

-- With no message and no error waiting, only a goroutine that is to call its node's function has no
-- step of `task_step`.
only_enters :
    (t : Task) (c : Config)
    → c.done ≡ []
    → c.errors ≡ []
    → task_step t c ≡ none
    → (p : Ptr) × (t ≡ enters p)
unfolding task_step
only_enters (enters p) c d n h = (p, refl)
only_enters (returned p (some x)) c d n h = cc
only_enters (returned p none) c d n h = absurd (ground arith)
only_enters (sends p) c d n h = absurd (ground arith)
only_enters (fails x) c d n h = absurd (ground arith)
only_enters (branches ts []) c d n h = cc
only_enters (branches ts (q ∷ qs)) c d n h = cc
only_enters (hands q ts qs) c d n h = absurd (ground arith)

enters-CanMove : (p : Ptr) (after : List Task) (c : Config) → c.tasks ≡ enters p ∷ after → CanMove c
enters-CanMove p after c e = elim (Bool-cases (is_virtual (c.heap p).type)) [
  | inl virtual ↦ (_, passes [] after p e virtual)
  | inr real ↦
      let o : (r : Option Error) × (c' : Context) × Outcome (c.heap p).fn c.context r c' =
        an_outcome (c.heap p).fn c.context in
      (_, executes [] after p o.0 o.1 e real o.2)
]

tasks-CanMove :
    (t : Task) (after : List Task) (c : Config)
    → c.tasks ≡ t ∷ after
    → c.done ≡ []
    → c.errors ≡ []
    → CanMove c
tasks-CanMove t after c e d n = elim (Option-cases (task_step t c)) [
  | inl waits ↦
      let o : (p : Ptr) × (t ≡ enters p) = only_enters t c d n waits in
      enters-CanMove o.0 after c (rw (← o.1) e)
  | inr (r, moves) ↦ (_, works [] after t e moves)
]

-- The control loop waits for messages, and there is none and no goroutine is left to send one.
abbrev pub IsIdle : Config → Type 0
IsIdle c = (c.loop ≡ receiving) × (c.done ≡ []) × (c.tasks ≡ [])

-- The control loop, which alone receives messages, waits to send one itself.
abbrev pub IsBlocked : Config → Type 0
IsBlocked c =
    (q : Ptr) × (rest : List Ptr) × (c.loop ≡ resending q rest) × (done_capacity ≤ length c.done)

-- Where the loop waits, the signal not given and no error in the channel.
loop_waits :
    (l : Loop) (c : Config)
    → c.finished_signal ≡ false
    → c.errors ≡ []
    → loop_step l c ≡ none
    → ((l ≡ receiving) × (c.done ≡ []))
      ⊎ (l ≡ stopped)
      ⊎ ((q : Ptr) × (rest : List Ptr) × (l ≡ resending q rest) × (done_capacity ≤ length c.done))
unfolding loop_step
loop_waits receiving c s n h = inl (refl, received c.done h)
  where
    received : (ps : List Ptr) → receive ps c ≡ none → ps ≡ []
    received [] k = refl
    received (q ∷ qs) k = absurd (ground arith)
loop_waits finishing c s n h = absurd (ground arith)
loop_waits stopped c s n h = inr (inl refl)
loop_waits (scheduling []) c s n h = cc
loop_waits (scheduling (q ∷ rest)) c s n h = cc
loop_waits (resending q rest) c s n h = inr (inr (q, rest, refl, ground arith))
loop_waits (failing x) c s n h = absurd (ground arith)

receiving_moves :
    (ts : List Task) (c : Config)
    → c.tasks ≡ ts
    → c.loop ≡ receiving
    → c.done ≡ []
    → c.errors ≡ []
    → CanMove c ⊎ IsIdle c ⊎ IsBlocked c
receiving_moves [] c e l d n = inr (inl (l, d, e))
receiving_moves (t ∷ after) c e l d n = inl (tasks-CanMove t after c e d n)

moves_or_waits :
    (es : List Error) (c : Config)
    → c.errors ≡ es
    → c.result ≡ none
    → Inv c
    → CanMove c ⊎ IsIdle c ⊎ IsBlocked c
moves_or_waits (x ∷ es) c e r v = inl (_, returns_error x es r e)
moves_or_waits [] c e r v = elim (Bool-cases c.finished_signal) [
  | inl given ↦ inl (_, returns_success r given)
  | inr not_yet ↦ elim (Option-cases (loop_step c.loop c)) [
    | inr (d, moves) ↦ inl (d, loops moves)
    | inl waits ↦ elim (loop_waits c.loop c not_yet e waits) [
      | inl (l, d) ↦ receiving_moves c.tasks c refl l d e
      | inr (inl l) ↦ let given : has_error c.errors ≡ true = v.reported l r not_yet in cc
      | inr (inr blocked) ↦ inr (inr blocked)
    ]
  ]
]

-- As long as `Run` has not returned, some step of the run is possible, or it is in one of two states:
-- no message and no goroutine is left and the control loop waits for a message, or the channel
-- of messages is full and the control loop, which alone receives them, waits to send the message of a
-- skipped node.
pub run_progress :
    (s : Scheduler) (input : Context) {c : Config}
    → Reach (start_run s input) c
    → c.result ≡ none
    → CanMove c ⊎ IsIdle c ⊎ IsBlocked c
unfolding start_run
run_progress s input {c} r h =
    moves_or_waits c.errors c refl h
      (Reach-Inv r (record { signalled = λ e. cc; reported = λ e. cc }))
