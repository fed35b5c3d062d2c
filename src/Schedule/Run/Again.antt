-- ===== src/Schedule/Run/Again.antt =====
-- A second run of a graph with a condition.
use xgc_agent.Prelude.{ℕ, ◌≡◌, String, false, arith, count}
use xgc_agent.Schedule.Graph.{Ptr, Node, Scheduler, add_conditional_node}
use xgc_agent.Schedule.Lifecycle.Reset.{state-reset_for_run}
use xgc_agent.Schedule.Build.{Builds}
use xgc_agent.Schedule.Build.Invariant.{Inv}
use xgc_agent.Schedule.Build.Reuse.{IsOutside, conditional_node_stays-IsOutside}
use xgc_agent.Schedule.Decide.{is_pending}
use xgc_agent.Schedule.Run.{Config, Context, Reach, start_run}
use xgc_agent.Schedule.Run.Once.{unpending_not_started}

-- Let a conditional node be added to a graph with the invariant, and anything be built after it. If
-- the node is not pending when `Run` is called, as it is not once an earlier run executed it, then
-- no step of the run executes it: `resetForRun` does not reach it.
pub rerun_skips_conditional :
    (name : String) (cond : ℕ) (s : Scheduler) {p : Ptr} {t u : Scheduler} (heap : Ptr → Node)
    (input : Context) {c : Config}
    → Inv s
    → add_conditional_node name cond s ≡ (p, t)
    → Builds t u
    → is_pending (heap p).state ≡ false
    → Reach (start_run (record u { heap = heap }) input) c
    → count p c.started ≡ 0
unfolding start_run
rerun_skips_conditional name cond s {p} {t} {u} heap input v e bs h r = ground (
  arith,
  unpending_not_started p r
      (ground (arith, outside, state-reset_for_run (record u { heap = heap }) p)),
  outside,
)
  where
    outside : IsOutside p u
    outside = conditional_node_stays-IsOutside name cond s v e bs
