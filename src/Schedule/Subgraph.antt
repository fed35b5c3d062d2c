-- ===== src/Schedule/Subgraph.antt =====
-- `subGraphNode` of schedule/subgraph.go: a node that runs another graph as long as a condition
-- holds. The run of the graph and the condition are parameters that may change a world `W`; the two
-- maps of keys are in the order in which the code's loops meet them.
pub mod Laws
pub mod Rounds
mod Tests
use xgc_agent.Prelude.{
  ℕ, zero, suc, String, Bool, true, false, Option, none, some, List, [], ◌∷◌, ◌⊎◌, inl, inr,
  string_eq,
}
use xgc_agent.Prelude.Maps.{Map, lookup, insert}

pub data Error : Type 0 where
  key_not_found run_failed : String → Error

pub record SubGraphNode (Any W : Type 0) : Type 0 where
  -- The parent's key for each key of the subgraph's input.
  pub input_keys : Map String String
  -- The subgraph's key for each key of the parent that its run sets.
  pub output_keys : Map String String
  -- `scheduler.Run`, with the context that it returns.
  pub run : Map String Any → W → (String ⊎ Map String Any) × W
  pub cond : Map String Any → W → Bool

-- How a loop of so many rounds ends: with the condition false or an error, or not yet.
pub data Outcome (Any : Type 0) : Type 0 where
  done : Map String Any → Outcome Any
  failed : Error → Map String Any → Outcome Any
  running : Map String Any → Outcome Any

module _ {Any : Type 0} where
  unfoldable pub gather :
      Map String String → Map String Any → Map String Any → Error ⊎ Map String Any
  gather [] parent input = inr input
  gather ((k, v) ∷ keys) parent input = elim (lookup v parent) [
    | none ↦ inl (key_not_found v)
    | some x ↦ gather keys parent (insert k x input)
  ]

  unfoldable pub export_key : String → Option Any → Map String Any → Map String Any
  export_key parent_key none parent = parent
  export_key parent_key (some x) parent = insert parent_key x parent

  unfoldable pub export : Map String String → Map String Any → Map String Any → Map String Any
  export [] sub parent = parent
  export ((parent_key, sub_key) ∷ keys) sub parent =
      export keys sub (export_key parent_key (lookup sub_key sub) parent)

  module _ {W : Type 0} (s : SubGraphNode Any W) where
    -- From the result of the run on: the error, and the parent's data.
    unfoldable pub finish :
        Map String Any → (String ⊎ Map String Any) × W → Option Error × Map String Any × W
    finish parent (inl e, w) = (some (run_failed e), parent, w)
    finish parent (inr sub, w) = (none, export s.output_keys sub parent, w)

    unfoldable pub start :
        Map String Any → Error ⊎ Map String Any → W → Option Error × Map String Any × W
    start parent (inl e) w = (some e, parent, w)
    start parent (inr input) w = finish parent (s.run input w)

    unfoldable pub execute_once : Map String Any → W → Option Error × Map String Any × W
    execute_once parent w = start parent (gather s.input_keys parent []) w

    -- `Execute`, for so many rounds at most.
    unfoldable pub execute : ℕ → Map String Any → W → Outcome Any × W
    execute zero parent w =
        (elim (s.cond parent w) [ true ↦ running parent | false ↦ done parent ], w)
    execute (suc rounds) parent w =
        let once = execute_once parent w in
        let rest = execute rounds once.1 once.2 in
        elim (s.cond parent w) [
          | false ↦ (done parent, w)
          | true ↦ elim once.0 [ some e ↦ (failed e once.1, once.2) | none ↦ rest ]
        ]
