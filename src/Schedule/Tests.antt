-- ===== src/Schedule/Tests.antt =====
-- Tests of the package schedule, and its theorems at concrete graphs.
use xgc_agent.Prelude.{
  ℕ, ◌+◌, ◌≤◌, ◌<◌, arith, ◌≡◌, refl, true, false, nat_eq, string_eq, none, some, [], ◌∷◌, count,
  ◌↔◌, ◌⊎◌, ◌==◌, if◌then◌else◌,
}
use xgc_agent.Prelude.Maps.{insert, lookup}
use xgc_agent.Schedule.Graph.{
  Ptr, Node, NodeState, pending, skipped, is_conditional, finished, running, set_entry, normal,
  user, Scheduler, ok, err, add_node, add_conditional_node, node_failed, failed,
}
use xgc_agent.Schedule.Lifecycle.{new_scheduler, reset_for_run, set_state, set_exit}
use xgc_agent.Schedule.Build.{done, adds}
use xgc_agent.Schedule.Build.Invariant.{Inv, Build-Inv, new_scheduler-Inv}
use xgc_agent.Schedule.Decide.{
  all_settled, all_skipped, is_empty, is_pending, stays, schedule_node, starts, skips, refuses,
  schedule_node_iff,
}
use xgc_agent.Schedule.Run.{
  Config, Step, is_virtual, scheduling, sends, enters, returned, loops, works, executes, Reach,
  here, next_step, start_run, loop_step, task_step, returns_success,
}
use xgc_agent.Schedule.Run.Entry.{run_starts_once}
use xgc_agent.Schedule.Run.Order.{Step-starts}
use xgc_agent.Schedule.Run.Work.{work}
use xgc_agent.Schedule.Run.Success.{EndLeft}
use xgc_agent.Schedule.Run.Success.End.{success-EndLeft}
use xgc_agent.Schedule.Run.Ends.{steps, Falls, run_ends}
use xgc_agent.Schedule.Run.Progress.{CanMove, IsIdle, IsBlocked, run_progress}
use xgc_agent.Schedule.Run.Again.{rerun_skips_conditional}

-- The scheduler that `NewScheduler` returns: the start node at 0 and the end node at 1.
fresh_scheduler : Scheduler
unfolding new_scheduler insert
fresh_scheduler = elim new_scheduler [ ok s ↦ s | err e ↦ absurd_scheduler ]
  where
    absurd_scheduler : Scheduler
    absurd_scheduler = record {
      heap = λ p. record {
        name = "";
        type = normal;
        fn = user 0;
        state = pending;
        prev = [];
        next = [];
        id = 0;
      };
      fresh = 0;
      graph = [];
      entry = 0;
      id_gen = 0;
    }

fresh_lem : new_scheduler ≡ ok fresh_scheduler
unfolding fresh_scheduler
fresh_lem = refl

fresh-Inv : Inv fresh_scheduler
fresh-Inv = new_scheduler-Inv fresh_lem

-- The map sends the start node's id to the end node: the second `AddNode` overwrote it.
start_id_names_end : lookup 0 fresh_scheduler.graph ≡ some 1
unfolding fresh_scheduler lookup
start_id_names_end = refl

-- A node "a", at 2, after the start node.
one_node : Scheduler
unfolding fresh_scheduler add_node
one_node = elim (add_node "a" normal (some (user 1)) fresh_scheduler) [
  | ok r ↦ r.1
  | err e ↦ fresh_scheduler
]

one_node_lem : add_node "a" normal (some (user 1)) fresh_scheduler ≡ ok (2, one_node)
unfolding one_node insert
one_node_lem = refl

Build-Inv_example : Inv one_node
Build-Inv_example = Build-Inv (adds "a" normal (some (user 1)) one_node_lem) fresh-Inv

-- The start node, followed by "a".
ready : Scheduler
unfolding one_node set_entry
ready = set_entry 2 one_node

-- The configuration after the start node's goroutine has run and the loop has started "a".
a_started : Config
unfolding ready start_run loop_step task_step
a_started = record (start_run ready []) {
  heap = set_state 2 running (set_state 0 finished (start_run ready []).heap);
  tasks = enters 2 ∷ [];
  loop = scheduling [];
  started = 2 ∷ 0 ∷ [];
}

a_started_reached : Reach (start_run ready []) a_started
unfolding a_started is_virtual reset_for_run is_conditional schedule_node
a_started_reached =
    next_step
      (next_step
        (next_step
          (next_step (next_step here (executes [] [] 0 none [] refl refl (refl, refl)))
            (works [] [] (returned 0 none) refl refl))
          (works [] [] (sends 0) refl refl))
        (loops refl))
      (loops refl)

run_starts_once_example : count 2 a_started.started ≤ 1
run_starts_once_example = run_starts_once ready [] 2 a_started_reached

-- The configuration before it, where the loop is about to schedule "a".
a_next : Config
unfolding ready start_run
a_next = record (start_run ready []) {
  heap = set_state 0 finished (start_run ready []).heap;
  tasks = [];
  loop = scheduling (2 ∷ []);
}

a_starts : Step a_next a_started
unfolding a_next a_started ready reset_for_run start_run loop_step schedule_node
a_starts = loops refl

one_more : count 2 a_next.started < count 2 a_started.started
unfolding a_next a_started ready start_run
one_more = omega arith

Step-starts_example :
    (is_pending (a_next.heap 2).state ≡ true)
    × (all_settled a_next.heap (a_next.heap 2).prev ≡ true)
    × ((is_empty (a_next.heap 2).prev ≡ true)
        ⊎ (all_skipped a_next.heap (a_next.heap 2).prev ≡ false))
Step-starts_example = Step-starts 2 a_starts one_more

-- A condition after the start node.
with_condition : Scheduler
unfolding fresh_scheduler add_conditional_node
with_condition = (add_conditional_node "c" 0 fresh_scheduler).1

with_condition_lem : add_conditional_node "c" 0 fresh_scheduler ≡ (2, with_condition)
unfolding with_condition
with_condition_lem = refl

rerun_skips_conditional_example :
    count 2
      (start_run
        (record with_condition { heap = set_state 2 finished with_condition.heap })
        []).started
    ≡ 0
unfolding set_state
rerun_skips_conditional_example =
    rerun_skips_conditional "c" 0 fresh_scheduler (set_state 2 finished with_condition.heap) []
      fresh-Inv with_condition_lem done refl here

-- A node with the predecessors 0 and 1.
joined : NodeState → NodeState → Ptr → Node
joined a b p = record {
  name = "j";
  type = normal;
  fn = user 0;
  state = if p == 0 then a else if p == 1 then b else pending;
  prev = if p == 2 then 0 ∷ 1 ∷ [] else [];
  next = [];
  id = 0;
}

schedule_node_iff_example :
    ((schedule_node (joined finished skipped) 2 ≡ starts) ↔ (
      (is_pending pending ≡ true)
      × (all_settled (joined finished skipped) (0 ∷ 1 ∷ []) ≡ true)
      × ((is_empty {A = Ptr} (0 ∷ 1 ∷ []) ≡ true)
          ⊎ (all_skipped (joined finished skipped) (0 ∷ 1 ∷ []) ≡ false))))
    × ((schedule_node (joined finished skipped) 2 ≡ skips) ↔ (
        (is_empty {A = Ptr} (0 ∷ 1 ∷ []) ≡ false)
        × (all_skipped (joined finished skipped) (0 ∷ 1 ∷ []) ≡ true)))
unfolding joined
schedule_node_iff_example = schedule_node_iff (joined finished skipped) 2

-- A predecessor that waits hides one that failed, and the other way round.
order_of_predecessors :
    (schedule_node (joined pending failed) 2 ≡ stays)
    × (schedule_node (joined failed pending) 2 ≡ refuses (node_failed "j"))
unfolding schedule_node joined
order_of_predecessors = (refl, refl)

-- The start node comes before "a", and "a" before all others.
ready_rank : Ptr → ℕ
ready_rank p = if p == 0 then 2 else if p == 2 then 1 else 0

ready-Falls : Falls ready_rank ready.heap
unfolding ready_rank ready one_node fresh_scheduler add_node set_entry new_scheduler
ready-Falls p q h = ground arith

run_ends_example : steps a_started_reached ≤ 5 + work ready.heap 3 0
unfolding ready_rank ready
run_ends_example = run_ends ready [] ready_rank ready-Falls a_started_reached

-- With "a" alone behind the start node, a run takes 17 steps at most.
ready_work : 5 + work ready.heap 3 0 ≡ 17
unfolding ready work
ready_work = refl

run_progress_example : CanMove a_started ⊎ IsIdle a_started ⊎ IsBlocked a_started
unfolding a_started start_run
run_progress_example = run_progress ready [] a_started_reached refl

-- A graph with no edge to the end: the run of a new scheduler, once the start node is received.
nothing_left : Config
unfolding fresh_scheduler start_run
nothing_left = record (start_run fresh_scheduler []) {
  heap = set_state 0 finished (start_run fresh_scheduler []).heap;
  tasks = [];
}

nothing_left_reached : Reach (start_run fresh_scheduler []) nothing_left
unfolding nothing_left is_virtual reset_for_run is_conditional loop_step task_step
nothing_left_reached =
    next_step
      (next_step
        (next_step
          (next_step (next_step here (executes [] [] 0 none [] refl refl (refl, refl)))
            (works [] [] (returned 0 none) refl refl))
          (works [] [] (sends 0) refl refl))
        (loops refl))
      (loops refl)

nothing_left-IsIdle : IsIdle nothing_left
unfolding nothing_left start_run
nothing_left-IsIdle = (refl, refl, refl)

-- The start node, "a" and the end node, in a row.
whole : Scheduler
unfolding ready set_exit
whole = elim (set_exit 2 ready) [ none ↦ ready | some s ↦ s ]

abbrev Ending : Type 0
Ending = (c : Config) × Reach (start_run whole []) c × (c.result ≡ some none)

-- A run in which each node's function returns at once, up to the return of `Run`.
whole_run : Ending
unfolding whole ready one_node fresh_scheduler is_virtual reset_for_run is_conditional schedule_node
    loop_step task_step start_run lookup insert
whole_run = (
  _,
  (next_step
      (next_step
        (next_step
          (next_step
            (next_step
              (next_step
                (next_step
                  (next_step
                    (next_step
                      (next_step
                        (next_step
                          (next_step
                            (next_step
                              (next_step
                                (next_step
                                  (next_step
                                    (next_step
                                      (next_step here
                                        (executes [] [] 0 none [] refl refl (refl, refl)))
                                      (works [] [] (returned 0 none) refl refl))
                                    (works [] [] (sends 0) refl refl))
                                  (loops refl))
                                (loops refl))
                              (loops refl))
                            (executes [] [] 2 none [] refl refl tt))
                          (works [] [] (returned 2 none) refl refl))
                        (works [] [] (sends 2) refl refl))
                      (loops refl))
                    (loops refl))
                  (loops refl))
                (executes [] [] 1 none [] refl refl (refl, refl)))
              (works [] [] (returned 1 none) refl refl))
            (works [] [] (sends 1) refl refl))
          (loops refl))
        (loops refl))
      (returns_success refl refl)),
  refl,
)

success-EndLeft_example : EndLeft whole_run.0.heap
success-EndLeft_example = success-EndLeft whole [] whole_run.1 whole_run.2
