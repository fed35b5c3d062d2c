-- ===== src/Schedule/Graph.antt =====
-- The data of schedule/graph.go and schedule/node.go, and the operations that build a graph. A
-- `*Node` is an address in the heap of the scheduler's nodes; the map `Graph` sends ids to
-- addresses.
use xgc_agent.Prelude.{
  ℕ, ◌+◌, ◌%◌, ◌^◌, ◌-◌, String, Bool, true, false, ◌||◌, Option, none, some, List, [], ◌∷◌, ◌++◌,
  ◌==◌, if◌then◌else◌, ◌=?◌, nat_eq, string_eq,
}
use xgc_agent.Prelude.Maps.{Map, insert}

abbrev pub Ptr : Type 0
Ptr = ℕ

-- `NodePending` up to `NodeFailed`. The field is exported, so other numbers can stand in it.
pub data NodeState : Type 0 where
  pending running skipped finished failed : NodeState
  unknown : ℕ → NodeState

pub data NodeType : Type 0 where
  normal conditional sub_graph conditional_virtual : NodeType
  other_type : ℕ → NodeType

-- The dynamic type of the node's `INode`. The caller's own functions are known by a number.
pub data NodeFn : Type 0 where
  start_node end_node conditional_virtual_node : NodeFn
  user : ℕ → NodeFn
  conditional_node : ℕ → ℕ → NodeFn
  sub_graph_node : ℕ → NodeFn

pub record Node : Type 0 where
  pub name : String
  pub type : NodeType
  pub fn : NodeFn
  pub state : NodeState
  pub prev : List Ptr
  pub next : List Ptr
  pub id : ℕ

pub record Scheduler : Type 0 where
  pub heap : Ptr → Node
  pub fresh : Ptr
  pub graph : Map ℕ Ptr
  pub entry : Ptr
  pub id_gen : ℕ

pub data Error : Type 0 where
  unknown_node_state inode_required node_required from_node_type_invalid : Error
  invalid_node_type : NodeType → Error
  node_failed : String → Error

pub data Result {ℓ} (A : Type ℓ) : Type ℓ where
  ok : A → Result A
  err : Error → Result A

abbrev pub start_node_flag : String
start_node_flag = "__start__"

abbrev pub end_node_flag : String
end_node_flag = "__end__"

abbrev pub start_node_id : ℕ
start_node_id = 0

-- `math.MaxInt32`
abbrev pub end_node_id : ℕ
end_node_id = 2 ^ 31 - 1

-- An assignment to a field of one node.
unfoldable pub update : Ptr → (Node → Node) → (Ptr → Node) → Ptr → Node
update p f heap q = if p == q then f (heap q) else heap q

abbrev blank_node : Node
blank_node = record {
  name = "";
  type = normal;
  fn = conditional_virtual_node;
  state = pending;
  prev = [];
  next = [];
  id = 0;
}

-- `&Node{Name: name, Type: type_, Fn: fn, id: id}`
unfoldable pub allocate : String → NodeType → NodeFn → ℕ → Scheduler → Ptr × Scheduler
unfolding update
allocate name type fn id s =
    let fields : Node = record blank_node { name = name; type = type; fn = fn; id = id } in
    (s.fresh, record s { heap = update s.fresh (λ _. fields) s.heap; fresh = s.fresh + 1 })

-- `idGen.Add(1)`: an `int32` that wraps, as its bit pattern.
unfoldable pub generate_node_id : Scheduler → ℕ × Scheduler
generate_node_id s = let id = (s.id_gen + 1) % 2 ^ 32 in (id, record s { id_gen = id })

-- `utils.SliceContains(NodeTypeSlice, type_)`
unfoldable pub in_node_type_slice : NodeType → Bool
in_node_type_slice normal = true
in_node_type_slice conditional = true
in_node_type_slice _ = false

unfoldable pub register_node : ℕ → Ptr × Scheduler → Ptr × Scheduler
register_node id (p, s) = (p, record s { graph = insert id p s.graph })

-- The flags of the two ends share the id 0.
unfoldable pub node_id : String → Scheduler → ℕ × Scheduler
unfolding generate_node_id
node_id name s =
    if name =? start_node_flag || name =? end_node_flag then (0, s) else generate_node_id s

unfoldable pub add_node : String → NodeType → Option NodeFn → Scheduler → Result (Ptr × Scheduler)
unfolding in_node_type_slice register_node node_id allocate
add_node name type none s = err inode_required
add_node name type (some fn) s =
    if in_node_type_slice type
    then (let (id, s') = node_id name s in ok (register_node id (allocate name type fn id s')))
    else err (invalid_node_type type)

-- The node is not put into the map `Graph`.
unfoldable pub add_conditional_node : String → ℕ → Scheduler → Ptr × Scheduler
unfolding generate_node_id allocate
add_conditional_node name cond s =
    let (id, s') = generate_node_id s in allocate name conditional (conditional_node id cond) id s'

unfoldable pub add_sub_graph_node : String → ℕ → Scheduler → Ptr × Scheduler
unfolding generate_node_id allocate
add_sub_graph_node name sub s =
    let (id, s') = generate_node_id s in allocate name sub_graph (sub_graph_node sub) id s'

-- `from.Next = append(from.Next, to)`
unfoldable pub append_next : Ptr → Ptr → Scheduler → Scheduler
unfolding update
append_next from to s = record s {
  heap = update from (λ n. record n { next = n.next ++ to ∷ [] }) s.heap;
}

-- `to.Prev = append(to.Prev, from)`
unfoldable pub append_prev : Ptr → Ptr → Scheduler → Scheduler
unfolding update
append_prev to from s = record s {
  heap = update to (λ n. record n { prev = n.prev ++ from ∷ [] }) s.heap;
}

abbrev pub link : Ptr → Ptr → Scheduler → Scheduler
link from to s = append_prev to from (append_next from to s)

unfoldable pub is_conditional : NodeType → Bool
is_conditional conditional = true
is_conditional _ = false

-- A `nil` node is `none`.
unfoldable pub add_edge : Option Ptr → Option Ptr → Scheduler → Result Scheduler
unfolding append_next append_prev is_conditional
add_edge (some from) (some to) s =
    if is_conditional (s.heap from).type then err from_node_type_invalid else ok (link from to s)
add_edge _ _ s = err node_required

-- The edge goes through a virtual node that carries the tag.
unfoldable pub virtual_edge : Ptr → Ptr → String → Scheduler → Scheduler
unfolding generate_node_id allocate register_node append_next append_prev
virtual_edge from to tag s =
    let (id, s') = generate_node_id s in
    let (v, t) =
      register_node id (allocate tag conditional_virtual conditional_virtual_node id s') in
    link v to (link from v t)

unfoldable pub add_conditional_edge :
    Option Ptr → Option Ptr → String → Scheduler → Result Scheduler
unfolding virtual_edge is_conditional
add_conditional_edge (some from) (some to) tag s =
    if is_conditional (s.heap from).type
    then ok (virtual_edge from to tag s)
    else err from_node_type_invalid
add_conditional_edge _ _ tag s = err node_required

-- Only the entry's `Next` is written: the node gets no predecessor.
unfoldable pub set_entry : Ptr → Scheduler → Scheduler
unfolding append_next
set_entry p s = append_next s.entry p s
