-- ===== src/Schedule/Subgraph/Tests.antt =====
-- Concrete subgraphs.
use xgc_agent.Prelude.{
  ℕ, ◌-◌, ◌<◌, ◌≤◌, ◌≡◌, refl, String, true, none, [], ◌∷◌, ◌⊎◌, inr, arith, ltb, string_eq,
}
use xgc_agent.Prelude.Maps.{Map, lookup, insert, has}
use xgc_agent.Schedule.Subgraph.{
  SubGraphNode, Error, gather, export_key, export, finish, start, execute_once, execute,
}
use xgc_agent.Schedule.Subgraph.Laws.{Executes, execute_once-Executes}
use xgc_agent.Schedule.Subgraph.Rounds.{EndsAfter, execute-EndsAfter}

-- A graph that counts the world down, and gives its input "x" back as "y".
abbrev node : SubGraphNode ℕ ℕ
node = record {
  input_keys = ("x", "a") ∷ [];
  output_keys = ("b", "y") ∷ [];
  run = λ input w. (inr (("y", w) ∷ []), w - 1);
  cond = λ parent w. ltb 0 w;
}

once : execute_once node (("a", 5) ∷ []) 3 ≡ (none, ("a", 5) ∷ ("b", 3) ∷ [], 2)
unfolding execute_once start finish gather export export_key lookup insert
once = refl

execute_once-Executes_example :
    Executes node (("a", 5) ∷ []) 3 (execute_once node (("a", 5) ∷ []) 3)
unfolding has
execute_once-Executes_example = execute_once-Executes node (("a", 5) ∷ []) 3 (refl, tt) (refl, tt)

start-progress :
    (parent : Map String ℕ) (w : ℕ) (g : Error ⊎ Map String ℕ)
    → ltb 0 w ≡ true
    → (start node parent g w).0 ≡ none
    → (start node parent g w).2 < w
unfolding start finish
start-progress parent w g c o = ground arith

progress :
    (parent : Map String ℕ) (w : ℕ)
    → ltb 0 w ≡ true
    → (execute_once node parent w).0 ≡ none
    → (execute_once node parent w).2 < w
unfolding execute_once
progress parent w c o = start-progress parent w (gather node.input_keys parent []) c o

execute-EndsAfter_example :
    (k : ℕ) × (k ≤ 3) × EndsAfter node k (("a", 5) ∷ []) 3 (execute node 4 (("a", 5) ∷ []) 3)
execute-EndsAfter_example =
    execute-EndsAfter node (λ parent w. w) progress 4 (("a", 5) ∷ []) 3 (omega arith)
