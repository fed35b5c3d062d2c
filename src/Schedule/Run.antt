-- ===== src/Schedule/Run.antt =====
-- One run of a graph: the control loop of `Run`, the goroutines that execute nodes (`Execute` and
-- `executeConditional` of schedule/node.go), and the channels between them. Each step is one action
-- of one of them. What a node's function returns, and what it writes to the context, is chosen
-- freely, except for the functions of schedule/start.go, schedule/end.go and
-- schedule/conditional.go.
pub mod Once
pub mod Entry
pub mod Again
pub mod Order
pub mod Fixed
pub mod Work
pub mod Ends
pub mod Progress
pub mod Success
use xgc_agent.Prelude.{
  ℕ, ◌+◌, ◌<◌, ◌≡◌, ◌⊎◌, String, Bool, true, false, ◌==◌, ltb, Option, none, some, List, [], ◌∷◌,
  ◌++◌, if◌then◌else◌, length, contains, nat_eq, string_eq,
}
use xgc_agent.Prelude.Maps.{Map, lookup, insert}
use xgc_agent.Prelude.Text.{decimal}
use Prim.Native.String.{◌++◌ as append}
use xgc_agent.Schedule.Graph.{
  Ptr, Node, NodeState, pending, running, skipped, finished, failed, NodeType, conditional,
  conditional_virtual, NodeFn, start_node, end_node, conditional_virtual_node, user,
  conditional_node, sub_graph_node, Scheduler, end_node_id, is_conditional,
}
use xgc_agent.Schedule.Lifecycle.{set_state, reset_for_run}
use xgc_agent.Schedule.Decide.{Action, stays, skips, starts, refuses, schedule_node}

-- What the context holds at a key: the tags that a condition chose, or a value of the nodes.
pub data Value : Type 0 where
  tags : List String → Value
  other_value : ℕ → Value

abbrev pub Context : Type 0
Context = Map String Value

-- The errors of a run.
pub data Error : Type 0 where
  user_error : ℕ → Error
  execution_failed : String → Error → Error
  no_condition_result : String → Error
  schedule_error : xgc_agent.Schedule.Graph.Error → Error

-- What is left to do for a goroutine: execute the node, act on what its function returned, send the
-- node, send an error; or, after a condition, settle the node's successors and send them one by one.
pub data Task : Type 0 where
  enters : Ptr → Task
  returned : Ptr → Option Error → Task
  sends : Ptr → Task
  fails : Error → Task
  branches : List String → List Ptr → Task
  hands : Ptr → List String → List Ptr → Task

-- Where the control loop stands.
pub data Loop : Type 0 where
  receiving finishing stopped : Loop
  scheduling : List Ptr → Loop
  resending : Ptr → List Ptr → Loop
  failing : Error → Loop

pub record Config : Type 0 where
  pub heap : Ptr → Node
  pub context : Context
  pub done : List Ptr
  pub finished_signal : Bool
  pub errors : List Error
  pub tasks : List Task
  pub loop : Loop
  -- What `Run` has returned: `some none` is success.
  pub result : Option (Option Error)
  -- The nodes that a goroutine was started for, newest first. The program does not keep this.
  pub started : List Ptr

-- `make(chan *Node, 100)`
abbrev pub done_capacity : ℕ
done_capacity = 100

unfoldable pub start_run : Scheduler → Context → Config
start_run s input = record {
  heap = (reset_for_run s).heap;
  context = input;
  done = [];
  finished_signal = false;
  errors = [];
  tasks = enters s.entry ∷ [];
  loop = receiving;
  result = none;
  started = s.entry ∷ [];
}

-- The loop's call of `scheduleNode` on `q`, with `rest` still to schedule.
unfoldable pub act : Action → Ptr → List Ptr → Config → Config
act stays q rest c = record c { loop = scheduling rest }
act (refuses e) q rest c = record c { loop = failing (schedule_error e) }
act skips q rest c = record c { heap = set_state q skipped c.heap; loop = resending q rest }
act starts q rest c = record c {
  heap = set_state q running c.heap;
  tasks = enters q ∷ c.tasks;
  started = q ∷ c.started;
  loop = scheduling rest;
}

-- `for node := range s.GraphState.done`
unfoldable pub receive : List Ptr → Config → Option Config
receive [] c = none
receive (p ∷ ps) c =
    if (c.heap p).id == end_node_id
    then some (record c { done = ps; loop = finishing })
    else some (record c { done = ps; loop = scheduling (c.heap p).next })

-- A send on `done`, which waits while the channel is full.
unfoldable pub send_done : Ptr → Config → Option Config
send_done p c =
    if ltb (length c.done) done_capacity then some (record c { done = c.done ++ p ∷ [] }) else none

unfoldable pub send_error : List Error → Error → Config → Option Config
send_error [] e c = some (record c { errors = e ∷ [] })
send_error (x ∷ xs) e c = none

abbrev then_loop : Option Config → Loop → Option Config
then_loop none l = none
then_loop (some c) l = some (record c { loop = l })

-- One action of the control loop; `none` while it waits.
unfoldable pub loop_step : Loop → Config → Option Config
unfolding receive send_done send_error act
loop_step receiving c = receive c.done c
loop_step finishing c =
    if c.finished_signal then none else some (record c { finished_signal = true; loop = stopped })
loop_step stopped c = none
loop_step (scheduling []) c = some (record c { loop = receiving })
loop_step (scheduling (q ∷ rest)) c = some (act (schedule_node c.heap q) q rest c)
loop_step (resending q rest) c = then_loop (send_done q c) (scheduling rest)
loop_step (failing e) c = then_loop (send_error c.errors e c) stopped

-- `fmt.Sprintf("__condition_%d_result__", id)`
unfoldable pub condition_key : ℕ → String
condition_key id = append "__condition_" (append (decimal id) "_result__")

-- `tags, _ := value.([]string)`
abbrev pub tags_of : Value → List String
tags_of (tags ts) = ts
tags_of (other_value n) = []

abbrev pub branch_state : List String → String → NodeState
branch_state ts name = if contains ts name then finished else skipped

abbrev wrap_error : Node → Error → Error
wrap_error node e = if is_conditional node.type then e else execution_failed node.name e

after_condition : Option Value → Ptr → Config → List Task × Config
after_condition none p c = (
  fails (no_condition_result (c.heap p).name) ∷ [],
  record c { heap = set_state p failed c.heap },
)
after_condition (some v) p c =
    (branches (tags_of v) (c.heap p).next ∷ [], record c { heap = set_state p finished c.heap })

abbrev with_tasks : List Task → Option Config → Option (List Task × Config)
with_tasks ts none = none
with_tasks ts (some c) = some (ts, c)

-- One action of a goroutine whose node has been executed: the tasks that take its place, and the
-- rest.
unfoldable pub task_step : Task → Config → Option (List Task × Config)
unfolding send_done send_error after_condition condition_key
task_step (enters p) c = none
task_step (returned p (some e)) c =
    some (fails (wrap_error (c.heap p) e) ∷ [], record c { heap = set_state p failed c.heap })
task_step (returned p none) c =
    if is_conditional (c.heap p).type
    then some (after_condition (lookup (condition_key (c.heap p).id) c.context) p c)
    else some (sends p ∷ [], record c { heap = set_state p finished c.heap })
task_step (sends p) c = with_tasks [] (send_done p c)
task_step (fails e) c = with_tasks [] (send_error c.errors e c)
task_step (branches ts []) c = some ([], c)
task_step (branches ts (q ∷ qs)) c =
    some
      (hands q ts qs ∷ [], record c { heap = set_state q (branch_state ts (c.heap q).name) c.heap })
task_step (hands q ts qs) c = with_tasks (branches ts qs ∷ []) (send_done q c)

unfoldable pub is_virtual : NodeType → Bool
is_virtual conditional_virtual = true
is_virtual _ = false

-- What a node's function may return, and what it may make of the context.
abbrev pub Outcome : NodeFn → Context → Option Error → Context → Type 0
Outcome start_node c r c' = (r ≡ none) × (c' ≡ c)
Outcome end_node c r c' = (r ≡ none) × (c' ≡ c)
Outcome conditional_virtual_node c r c' = (r ≡ none) × (c' ≡ c)
Outcome (user n) c r c' = Unit
Outcome (sub_graph_node n) c r c' = Unit
Outcome (conditional_node id cond) c r c' =
    ((e : Error) × (r ≡ some e))
    ⊎ ((ts : List String) × (mid : Context) × (r ≡ none)
        × (c' ≡ insert (condition_key id) (tags ts) mid))

-- One action of the control loop, of one goroutine, or of the `select` that ends `Run`.
pub data Step (c : Config) : Config → Type 0 where
  loops : {c' : Config} → loop_step c.loop c ≡ some c' → Step c c'
  works :
      (before after : List Task) (t : Task) {ts : List Task} {c' : Config}
      → c.tasks ≡ before ++ t ∷ after
      → task_step t c ≡ some (ts, c')
      → Step c (record c' { tasks = before ++ ts ++ after })
  executes :
      (before after : List Task) (p : Ptr) (r : Option Error) (context : Context)
      → c.tasks ≡ before ++ enters p ∷ after
      → is_virtual (c.heap p).type ≡ false
      → Outcome (c.heap p).fn c.context r context
      → Step c (record c { tasks = before ++ returned p r ∷ after; context = context })
  passes :
      (before after : List Task) (p : Ptr)
      → c.tasks ≡ before ++ enters p ∷ after
      → is_virtual (c.heap p).type ≡ true
      → Step c (record c { tasks = before ++ after })
  returns_success :
      c.result ≡ none
      → c.finished_signal ≡ true
      → Step c (record c { result = some none; finished_signal = false })
  returns_error :
      (e : Error) (es : List Error)
      → c.result ≡ none
      → c.errors ≡ e ∷ es
      → Step c (record c { result = some (some e); errors = es })

pub data Reach (c : Config) : Config → Type 0 where
  here : Reach c c
  next_step : {d e : Config} → Reach c d → Step d e → Reach c e
