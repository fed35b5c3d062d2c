-- ===== src/Schedule/Run/Success/End.antt =====
-- What a run has done when `Run` returns without error.
use mathlib.Core.Option.{some-injective}
use xgc_agent.Prelude.{
  String, ◌≡◌, refl, false, Option, none, some, List, [], ◌∷◌, ◌++◌, arith, subst, string_eq,
  nat_eq, All, All-append, All-of_append, Bool-cases, ltb, length, inl, inr,
}
use xgc_agent.Schedule.Graph.{Ptr, Node, NodeState, finished, failed, is_conditional, Scheduler}
use xgc_agent.Schedule.Lifecycle.{set_state}
use xgc_agent.Schedule.Lifecycle.Reset.{state-set_state}
use xgc_agent.Schedule.Decide.{is_pending}
use xgc_agent.Schedule.Run.{
  Config, Context, Error, Task, enters, returned, sends, fails, branches, hands, task_step,
  branch_state, Step, loops, works, executes, passes, returns_success, returns_error, Reach, here,
  next_step, start_run, done_capacity, send_error, send_done, with_tasks, after_condition, Value,
  wrap_error, tags_of, no_condition_result,
}
use xgc_agent.Schedule.Run.Success.{
  Left, EndLeft, TaskLeft, Inv, Keeps, Inv-Keeps, Step-Keeps, at_loop, loop_step-Inv,
}

-- What a goroutine's step leaves, and the tasks that take the place of its task.
abbrev Leaves : Config → List Task × Config → Type 0
Leaves c r = Keeps c.heap r.1.heap → Inv r.1.heap r.1 × All (TaskLeft r.1.heap) r.0

by_pair : (c : Config) {r r' : List Task × Config} → some r ≡ some r' → Leaves c r → Leaves c r'
by_pair c h v = subst (Leaves c) (some-injective _ _ h) v

-- A node's state has been set, and nothing else.
at_state :
    {c : Config} (p : Ptr) (s : NodeState) (t : Task)
    → Inv c.heap c
    → TaskLeft (set_state p s c.heap) t
    → Leaves c (t ∷ [], record c { heap = set_state p s c.heap })
at_state {c} p s t v l k =
    let w = Inv-Keeps k v in
    (
      record {
        received = w.received;
        sent = w.sent;
        looped = w.looped;
        signalled = w.signalled;
        succeeded = w.succeeded;
      },
      (l, tt),
    )

set_state-Left :
    (p : Ptr) (s : NodeState) (h : Ptr → Node) → is_pending s ≡ false → Left (set_state p s h) p
set_state-Left p s h e = ground (arith, state-set_state p p s h, e)

branch_state-left : (ts : List String) (name : String) → is_pending (branch_state ts name) ≡ false
branch_state-left ts name = ground arith

after_condition-Leaves :
    (value : Option Value) (p : Ptr) (c : Config)
    → Inv c.heap c
    → Leaves c (after_condition value p c)
unfolding after_condition
after_condition-Leaves none p c v =
    at_state p failed (fails (no_condition_result (c.heap p).name)) v tt
after_condition-Leaves (some x) p c v =
    at_state p finished (branches (tags_of x) (c.heap p).next) v tt

-- A message has been put into the channel.
sent_done-Leaves :
    (q : Ptr) (c : Config) (ts : List Task) {r : List Task × Config}
    → Left c.heap q
    → Inv c.heap c
    → All (TaskLeft c.heap) ts
    → with_tasks ts (send_done q c) ≡ some r
    → Leaves c r
unfolding send_done
sent_done-Leaves q c ts l v k h = elim (Bool-cases (ltb (length c.done) done_capacity)) [
  | inl room ↦ by_pair c (rw room at h) λ _. (
    record {
      received = All-append (Left c.heap) c.done (q ∷ []) v.received (l, tt);
      sent = v.sent;
      looped = v.looped;
      signalled = v.signalled;
      succeeded = v.succeeded;
    },
    k,
  )
  | inr full ↦ absurd (ground arith)
]

task_step-Leaves :
    (t : Task) (c : Config) {r : List Task × Config}
    → TaskLeft c.heap t
    → Inv c.heap c
    → task_step t c ≡ some r
    → Leaves c r
unfolding task_step
task_step-Leaves (enters p) c l v h = cc
task_step-Leaves (returned p (some e)) c l v h =
    by_pair c h (at_state p failed (fails (wrap_error (c.heap p) e)) v tt)
task_step-Leaves (returned p none) c l v h = elim (Bool-cases (is_conditional (c.heap p).type)) [
  | inl chooses ↦ by_pair c (rw chooses at h) (after_condition-Leaves _ p c v)
  | inr plain ↦
      by_pair c (rw plain at h)
        (at_state p finished (sends p) v (set_state-Left p finished c.heap refl))
]
task_step-Leaves (sends p) c l v h = sent_done-Leaves p c [] l v tt h
task_step-Leaves (fails e) c {r} l v h = reported c.errors h
  where
    reported : (es : List Error) → with_tasks [] (send_error es e c) ≡ some r → Leaves c r
    reported [] k = by_pair c k λ _. (at_loop c.loop (e ∷ []) v.looped v, tt)
    reported (x ∷ es) k = cc
task_step-Leaves (branches ts []) c l v h = by_pair c h λ _. (v, tt)
task_step-Leaves (branches ts (q ∷ qs)) c l v h = by_pair c h (
    at_state q (branch_state ts (c.heap q).name) (hands q ts qs) v (
      set_state-Left q (branch_state ts (c.heap q).name) c.heap
        (branch_state-left ts (c.heap q).name)))
task_step-Leaves (hands q ts qs) c l v h = sent_done-Leaves q c (branches ts qs ∷ []) l v (tt, tt) h

-- The tasks before and behind one of them, and what takes its place.
replaced :
    (h : Ptr → Node) (before mid after : List Task) (t : Task)
    → All (TaskLeft h) (before ++ t ∷ after)
    → All (TaskLeft h) mid
    → All (TaskLeft h) (before ++ mid ++ after)
replaced h before mid after t v m =
    let s = All-of_append (TaskLeft h) before (t ∷ after) v in
    All-append (TaskLeft h) (before ++ mid) after (All-append (TaskLeft h) before mid s.0 m) s.1.1

of_one :
    (h : Ptr → Node) (before after : List Task) (t : Task)
    → All (TaskLeft h) (before ++ t ∷ after)
    → TaskLeft h t
of_one h before after t v = (All-of_append (TaskLeft h) before (t ∷ after) v).1.0

at_tasks :
    {h : Ptr → Node} {c : Config} (ts : List Task) (x : Context)
    → All (TaskLeft h) ts
    → Inv h c
    → Inv h (record c { tasks = ts; context = x })
at_tasks ts x s v = record {
  received = v.received;
  sent = s;
  looped = v.looped;
  signalled = v.signalled;
  succeeded = v.succeeded;
}

Step-Inv : {c c' : Config} → Step c c' → Inv c.heap c → Inv c'.heap c'
Step-Inv {c} (loops h) v = loop_step-Inv c.loop c refl v h (loops h)
Step-Inv {c} (works before after t {ts} {c'} e h) v =
    let k = Step-Keeps (works before after t {ts = ts} {c' = c'} e h) in
    let w =
      task_step-Leaves t c (of_one c.heap before after t (subst (All (TaskLeft c.heap)) e v.sent)) v
        h k in
    at_tasks (before ++ ts ++ after) c'.context
      (replaced c'.heap before ts after t (subst (All (TaskLeft c'.heap)) e (Inv-Keeps k v).sent)
        w.1)
      w.0
Step-Inv {c} (executes before after p r context e f o) v =
    let s =
      All-of_append (TaskLeft c.heap) before (enters p ∷ after)
        (subst (All (TaskLeft c.heap)) e v.sent) in
    at_tasks (before ++ returned p r ∷ after) context
      (All-append (TaskLeft c.heap) before (returned p r ∷ after) s.0 (tt, s.1.1)) v
Step-Inv {c} (passes before after p e f) v =
    let s =
      All-of_append (TaskLeft c.heap) before (enters p ∷ after)
        (subst (All (TaskLeft c.heap)) e v.sent) in
    at_tasks (before ++ after) c.context (All-append (TaskLeft c.heap) before after s.0 s.1.1) v
Step-Inv (returns_success e f) v = record {
  received = v.received;
  sent = v.sent;
  looped = v.looped;
  signalled = λ k. cc;
  succeeded = λ k. v.signalled f;
}
Step-Inv (returns_error x es e f) v = record {
  received = v.received;
  sent = v.sent;
  looped = v.looped;
  signalled = v.signalled;
  succeeded = λ k. cc;
}

Reach-Inv : {c c' : Config} → Reach c c' → Inv c.heap c → Inv c'.heap c'
Reach-Inv here v = v
Reach-Inv (next_step r st) v = Step-Inv st (Reach-Inv r v)

-- When `Run` has returned without error, a node with the id of the end is pending no more: it was
-- started, or skipped, or settled by a condition.
pub success-EndLeft :
    (s : Scheduler) (input : Context) {c : Config}
    → Reach (start_run s input) c
    → c.result ≡ some none
    → EndLeft c.heap
unfolding start_run
success-EndLeft s input r h = (Reach-Inv r start).succeeded h
  where
    start : Inv (start_run s input).heap (start_run s input)
    start = record {
      received = tt;
      sent = (tt, tt);
      looped = tt;
      signalled = λ k. cc;
      succeeded = λ k. cc;
    }
