-- ===== src/Schedule/Run/Success.antt =====
-- The messages of a run name nodes that are pending no more.
pub mod End
use mathlib.Core.Option.{some-injective}
use xgc_agent.Prelude.{
  ℕ, String, ◌≡◌, refl, Bool, true, false, Option, none, some, List, [], ◌∷◌, ◌++◌, arith, subst,
  string_eq, nat_eq, ◌==◌, if◌then◌else◌, sym, All, All-append, All-of_append, All-map_of,
  Bool-cases, ==_iff, ltb, length, inl, inr, contains, count, ◌≤◌,
}
use xgc_agent.Schedule.Graph.{
  Ptr, Node, NodeState, pending, running, skipped, finished, failed, end_node_id, is_conditional,
  Scheduler,
}
use xgc_agent.Schedule.Lifecycle.{set_state}
use xgc_agent.Schedule.Lifecycle.Reset.{state-set_state}
use xgc_agent.Schedule.Decide.{Action, stays, skips, starts, refuses, schedule_node, is_pending}
use xgc_agent.Schedule.Run.{
  Config, Context, Error, Task, enters, returned, sends, fails, branches, hands, Loop, receiving,
  finishing, stopped, scheduling, resending, failing, act, receive, loop_step, task_step,
  branch_state, Step, loops, works, executes, passes, returns_success, returns_error, Reach, here,
  next_step, start_run, done_capacity, send_error, send_done, then_loop, with_tasks,
  after_condition, Value, schedule_error, wrap_error, tags_of, no_condition_result, condition_key,
}
use xgc_agent.Schedule.Run.Once.{Step-Moves}
use xgc_agent.Schedule.Run.Fixed.{SameNode, Step-SameNodes}

-- The node is pending no more.
abbrev Left : (Ptr → Node) → Ptr → Type 0
Left heap p = is_pending (heap p).state ≡ false

abbrev pub EndLeft : (Ptr → Node) → Type 0
EndLeft heap = (p : Ptr) × ((heap p).id ≡ end_node_id) × (is_pending (heap p).state ≡ false)

abbrev TaskLeft : (Ptr → Node) → Task → Type 0
TaskLeft heap (sends p) = Left heap p
TaskLeft heap (hands q ts qs) = Left heap q
TaskLeft heap (enters p) = Unit
TaskLeft heap (returned p r) = Unit
TaskLeft heap (fails e) = Unit
TaskLeft heap (branches ts qs) = Unit

abbrev LoopLeft : (Ptr → Node) → Loop → Type 0
LoopLeft heap (resending q rest) = Left heap q
LoopLeft heap finishing = EndLeft heap
LoopLeft heap receiving = Unit
LoopLeft heap stopped = Unit
LoopLeft heap (scheduling qs) = Unit
LoopLeft heap (failing e) = Unit

-- Every node that is sent or is to be sent is pending no more, in the states of `heap`; and so is an
-- end node whose message the loop has received.
record Inv (heap : Ptr → Node) (c : Config) : Type 0 where
  received : All (Left heap) c.done
  sent : All (TaskLeft heap) c.tasks
  looped : LoopLeft heap c.loop
  signalled : c.finished_signal ≡ true → EndLeft heap
  succeeded : c.result ≡ some none → EndLeft heap

record Keeps (h h' : Ptr → Node) : Type 0 where
  ids : (p : Ptr) → (h' p).id ≡ (h p).id
  left : (p : Ptr) → Left h p → Left h' p

EndLeft-Keeps : {h h' : Ptr → Node} → Keeps h h' → EndLeft h → EndLeft h'
EndLeft-Keeps k (p, e, l) = (p, rw (k.ids p) e, k.left p l)

TaskLeft-Keeps : {h h' : Ptr → Node} → Keeps h h' → (t : Task) → TaskLeft h t → TaskLeft h' t
TaskLeft-Keeps k (sends p) l = k.left p l
TaskLeft-Keeps k (hands q ts qs) l = k.left q l
TaskLeft-Keeps k (enters p) l = tt
TaskLeft-Keeps k (returned p r) l = tt
TaskLeft-Keeps k (fails e) l = tt
TaskLeft-Keeps k (branches ts qs) l = tt

LoopLeft-Keeps : {h h' : Ptr → Node} → Keeps h h' → (l : Loop) → LoopLeft h l → LoopLeft h' l
LoopLeft-Keeps k (resending q rest) l = k.left q l
LoopLeft-Keeps k finishing l = EndLeft-Keeps k l
LoopLeft-Keeps k receiving l = tt
LoopLeft-Keeps k stopped l = tt
LoopLeft-Keeps k (scheduling qs) l = tt
LoopLeft-Keeps k (failing e) l = tt

Inv-Keeps : {h h' : Ptr → Node} {c : Config} → Keeps h h' → Inv h c → Inv h' c
Inv-Keeps {h} {h'} {c} k v = record {
  received = All-map_of (Left h) (Left h') c.done (k.left) v.received;
  sent = All-map_of (TaskLeft h) (TaskLeft h') c.tasks (TaskLeft-Keeps k) v.sent;
  looped = LoopLeft-Keeps k c.loop v.looped;
  signalled = λ e. EndLeft-Keeps k (v.signalled e);
  succeeded = λ e. EndLeft-Keeps k (v.succeeded e);
}

Step-Keeps : {c c' : Config} → Step c c' → Keeps c.heap c'.heap
Step-Keeps {c} {c'} st = record {
  ids = λ p. (Step-SameNodes st p).1;
  left = λ p l. ground (arith, (Step-Moves p st).kept, l);
}

-- Nothing changes but where the loop stands and the errors.
at_loop :
    {h : Ptr → Node} {c : Config} (l : Loop) (es : List Error)
    → LoopLeft h l
    → Inv h c
    → Inv h (record c { loop = l; errors = es })
at_loop l es k v = record {
  received = v.received;
  sent = v.sent;
  looped = k;
  signalled = v.signalled;
  succeeded = v.succeeded;
}

-- With the states that the nodes have afterwards.
act-Inv :
    (a : Action) (q : Ptr) (rest : List Ptr) (c : Config)
    → Inv (act a q rest c).heap c
    → Inv (act a q rest c).heap (act a q rest c)
unfolding act
act-Inv stays q rest c v = at_loop (scheduling rest) c.errors tt v
act-Inv (refuses x) q rest c v = at_loop (failing (schedule_error x)) c.errors tt v
act-Inv skips q rest c v =
    let w =
      at_loop (resending q rest) c.errors (ground (arith, state-set_state q q skipped c.heap)) v in
    record {
      received = w.received;
      sent = w.sent;
      looped = w.looped;
      signalled = w.signalled;
      succeeded = w.succeeded;
    }
act-Inv starts q rest c v = record {
  received = v.received;
  sent = (tt, v.sent);
  looped = tt;
  signalled = v.signalled;
  succeeded = v.succeeded;
}

by_some : {d c' : Config} → some d ≡ some c' → Inv d.heap d → Inv c'.heap c'
by_some h v = subst (λ d. Inv d.heap d) (some-injective _ _ h) v

received-Inv :
    (ps : List Ptr) (c : Config) {c' : Config}
    → c.done ≡ ps
    → Inv c.heap c
    → receive ps c ≡ some c'
    → Inv c'.heap c'
unfolding receive
received-Inv [] c d v h = cc
received-Inv (p ∷ ps) c {c'} d v h =
    let both = subst (All (Left c.heap)) d v.received in
    elim (Bool-cases ((c.heap p).id == end_node_id)) [
      | inl end ↦ by_some (rw end at h) (record {
        received = both.1;
        sent = v.sent;
        looped = (p, (==_iff _ _).0 end, both.0);
        signalled = v.signalled;
        succeeded = v.succeeded;
      })
      | inr other ↦ by_some (rw other at h) (record {
        received = both.1;
        sent = v.sent;
        looped = tt;
        signalled = v.signalled;
        succeeded = v.succeeded;
      })
    ]

loop_step-Inv :
    (l : Loop) (c : Config) {c' : Config}
    → c.loop ≡ l
    → Inv c.heap c
    → loop_step l c ≡ some c'
    → Step c c'
    → Inv c'.heap c'
unfolding loop_step
loop_step-Inv stopped c e v h st = cc
loop_step-Inv receiving c e v h st = received-Inv c.done c refl v h
loop_step-Inv finishing c e v h st = elim (Bool-cases c.finished_signal) [
  | inl given ↦ absurd (ground arith)
  | inr not_yet ↦ by_some (rw not_yet at h) (record {
    received = v.received;
    sent = v.sent;
    looped = tt;
    signalled = λ k. subst (LoopLeft c.heap) e v.looped;
    succeeded = v.succeeded;
  })
]
loop_step-Inv (scheduling []) c e v h st = by_some h (at_loop receiving c.errors tt v)
loop_step-Inv (scheduling (q ∷ rest)) c e v h st = by_some h (
    act-Inv (schedule_node c.heap q) q rest c
      (Inv-Keeps (subst (λ d. Keeps c.heap d.heap) (sym (some-injective _ _ h)) (Step-Keeps st)) v))
loop_step-Inv (resending q rest) c e v h st =
    elim (Bool-cases (ltb (length c.done) done_capacity)) [
      | inl room ↦ by_some (rw room at h) (record {
        received =
            All-append (Left c.heap) c.done (q ∷ []) v.received
              (subst (LoopLeft c.heap) e v.looped, tt);
        sent = v.sent;
        looped = tt;
        signalled = v.signalled;
        succeeded = v.succeeded;
      })
      | inr full ↦ absurd (ground arith)
    ]
loop_step-Inv (failing x) c {c'} e v h st = reported c.errors h
  where
    reported : (es : List Error) → then_loop (send_error es x c) stopped ≡ some c' → Inv c'.heap c'
    reported [] k = by_some k (at_loop stopped (x ∷ []) tt v)
    reported (y ∷ es) k = cc
