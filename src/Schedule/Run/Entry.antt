-- ===== src/Schedule/Run/Entry.antt =====
-- The first steps of a run, in which the entry is executed although its state is pending, and the
-- bound on executions that holds from then on.
use xgc_agent.Prelude.{
  ◌≤◌, ◌≡◌, refl, ◌⊎◌, inl, inr, true, Option, none, some, List, [], ◌∷◌, ◌++◌, arith, count, subst,
  sym, ◌∙◌,
}
use xgc_agent.Schedule.Graph.{Ptr, Scheduler, finished, failed}
use xgc_agent.Schedule.Lifecycle.Reset.{state-set_state}
use xgc_agent.Schedule.Decide.{is_pending}
use xgc_agent.Schedule.Run.{
  Config, Context, Error, Task, enters, returned, receiving, receive, loop_step, task_step, Step,
  loops, works, executes, passes, returns_success, returns_error, Reach, here, next_step, start_run,
}
use xgc_agent.Schedule.Run.Once.{Step-Moves}

-- No node was started twice, and a node that is pending was not started.
abbrev pub IsOnce : Config → Type 0
IsOnce c =
    (p : Ptr)
    → (count p c.started ≤ 1) × (is_pending (c.heap p).state ≡ true → count p c.started ≡ 0)

-- Only the entry's goroutine has anything to do.
record IsBooting (e : Ptr) (c : Config) : Type 0 where
  idle : c.loop ≡ receiving
  empty : c.done ≡ []
  once : c.started ≡ e ∷ []
  alone :
      (c.tasks ≡ [])
      ⊎ (c.tasks ≡ enters e ∷ [])
      ⊎ ((r : Option Error) × (c.tasks ≡ returned e r ∷ []))

-- The only way to pick a task from a list of one.
only_task :
    (before after : List Task) (t u : Task)
    → u ∷ [] ≡ before ++ t ∷ after
    → (before ≡ []) × (after ≡ []) × (t ≡ u)
only_task [] [] t u h = ground arith
only_task [] (x ∷ after) t u h = cc
only_task (x ∷ []) after t u h = cc
only_task (x ∷ y ∷ before) after t u h = cc

no_task : (before after : List Task) (t : Task) → [] ≡ before ++ t ∷ after → ⊥
no_task [] after t h = cc
no_task (x ∷ before) after t h = cc

-- The entry's function has returned: its node is settled or has failed.
returned-IsOnce :
    (e : Ptr) (r : Option Error) (c : Config) {ts : List Task} {c' : Config}
    → c.started ≡ e ∷ []
    → task_step (returned e r) c ≡ some (ts, c')
    → IsOnce c'
unfolding task_step
returned-IsOnce e (some x) c s h = λ p. ground (arith, state-set_state e p failed c.heap)
returned-IsOnce e none c s h =
    λ p. ground (arith, state-set_state e p failed c.heap, state-set_state e p finished c.heap)

nothing_received : (ps : List Ptr) (c : Config) {c' : Config} → ps ≡ [] → receive ps c ≡ some c' → ⊥
unfolding receive
nothing_received [] c e h = cc
nothing_received (p ∷ ps) c e h = cc

-- The entry's goroutine either goes on alone, or has settled the entry.
task-IsBooting :
    (e : Ptr) {c c' : Config} (before after ts : List Task) (t : Task)
    → IsBooting e c
    → c.tasks ≡ before ++ t ∷ after
    → task_step t c ≡ some (ts, c')
    → IsOnce c'
unfolding task_step
task-IsBooting e {c} {c'} before after ts t b h f = alone b.alone
  where
    alone :
        (c.tasks ≡ [])
          ⊎ (c.tasks ≡ enters e ∷ [])
          ⊎ ((r : Option Error) × (c.tasks ≡ returned e r ∷ []))
        → IsOnce c'
    alone (inl k) = absurd (no_task before after t (sym k ∙ h))
    alone (inr (inl k)) =
        cc (subst (λ u. task_step u c ≡ some (ts, c')) (only_task before after t _ (sym k ∙ h)).2 f)
    alone (inr (inr (r, k))) =
        returned-IsOnce e r c b.once
          (subst (λ u. task_step u c ≡ some (ts, c')) (only_task before after t _ (sym k ∙ h)).2 f)

returned-IsBooting :
    (e : Ptr) {c : Config} (before after : List Task) (q : Ptr) (r : Option Error)
    → IsBooting e c
    → c.tasks ≡ before ++ enters q ∷ after
    → before ++ returned q r ∷ after ≡ returned e r ∷ []
returned-IsBooting e {c} before after q r b h = alone b.alone
  where
    alone :
        (c.tasks ≡ [])
          ⊎ (c.tasks ≡ enters e ∷ [])
          ⊎ ((r : Option Error) × (c.tasks ≡ returned e r ∷ []))
        → before ++ returned q r ∷ after ≡ returned e r ∷ []
    alone (inl k) = absurd (no_task before after _ (sym k ∙ h))
    alone (inr (inl k)) = ground (arith, only_task before after (enters q) (enters e) (sym k ∙ h))
    alone (inr (inr (x, k))) =
        ground (arith, only_task before after (enters q) (returned e x) (sym k ∙ h))

passed-IsBooting :
    (e : Ptr) {c : Config} (before after : List Task) (t : Task)
    → IsBooting e c
    → c.tasks ≡ before ++ t ∷ after
    → before ++ after ≡ []
passed-IsBooting e {c} before after t b h = alone b.alone
  where
    alone :
        (c.tasks ≡ [])
          ⊎ (c.tasks ≡ enters e ∷ [])
          ⊎ ((r : Option Error) × (c.tasks ≡ returned e r ∷ []))
        → before ++ after ≡ []
    alone (inl k) = absurd (no_task before after _ (sym k ∙ h))
    alone (inr (inl k)) = ground (arith, only_task before after t (enters e) (sym k ∙ h))
    alone (inr (inr (x, k))) = ground (arith, only_task before after t (returned e x) (sym k ∙ h))

Step-IsBooting : (e : Ptr) {c c' : Config} → Step c c' → IsBooting e c → IsBooting e c' ⊎ IsOnce c'
unfolding loop_step
Step-IsBooting e {c} {c'} (loops h) b =
    absurd (nothing_received c.done c b.empty (subst (λ l. loop_step l c ≡ some c') b.idle h))
Step-IsBooting e (works before after t {ts} h f) b = inr (task-IsBooting e before after ts t b h f)
Step-IsBooting e (executes before after q r context h v o) b = inl (record {
  idle = b.idle;
  empty = b.empty;
  once = b.once;
  alone = inr (inr (r, returned-IsBooting e before after q r b h));
})
Step-IsBooting e (passes before after q h v) b = inl (record {
  idle = b.idle;
  empty = b.empty;
  once = b.once;
  alone = inl (passed-IsBooting e before after _ b h);
})
Step-IsBooting e (returns_success h f) b =
    inl (record { idle = b.idle; empty = b.empty; once = b.once; alone = b.alone })
Step-IsBooting e (returns_error x es h f) b =
    inl (record { idle = b.idle; empty = b.empty; once = b.once; alone = b.alone })

Step-IsOnce : {c c' : Config} → Step c c' → IsOnce c → IsOnce c'
Step-IsOnce st v = λ p. ground (arith, v p, Step-Moves p st)

Reach-IsOnce : (e : Ptr) {c c' : Config} → Reach c c' → IsBooting e c → IsBooting e c' ⊎ IsOnce c'
Reach-IsOnce e here b = inl b
Reach-IsOnce e (next_step r st) b = elim (Reach-IsOnce e r b) [
  | inl booting ↦ Step-IsBooting e st booting
  | inr once ↦ inr (Step-IsOnce st once)
]

-- Whatever the order in which the goroutines and the control loop take their steps, and whatever the
-- nodes' functions return, a run starts no node more than once.
pub run_starts_once :
    (s : Scheduler) (input : Context) {c : Config} (p : Ptr)
    → Reach (start_run s input) c
    → count p c.started ≤ 1
unfolding start_run
run_starts_once s input {c} p r = elim (Reach-IsOnce s.entry r booting) [
  | inl b ↦ ground (arith, b.once)
  | inr once ↦ (once p).0
]
  where
    booting : IsBooting s.entry (start_run s input)
    booting = record { idle = refl; empty = refl; once = refl; alone = inr (inl refl) }
