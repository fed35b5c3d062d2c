-- ===== src/Memory/GraphStore/Methods.antt =====
-- The methods of the graph store, over the driver. A row is what a record of the answer has under
-- its keys.
use xgc_agent.Prelude.{
  ℕ, String, false, Option, none, some, List, [], ◌∷◌, if◌then◌else◌, ◌==◌, ◌=?◌, string_eq, ◌⊎◌,
  inl, inr,
}
use xgc_agent.Prelude.Int.{ℤ}
use xgc_agent.Prelude.Maps.{Map, lookup, insert}
use xgc_agent.Prelude.Text.{trim_space}
use xgc_agent.Memory.GraphStore.Query.{
  Query, Param, of_text, add_entity_query, add_relationship_query, find_related_query,
  search_entities_query, get_relationships_query, delete_entity_query, clear_all_query, user_query,
}
use xgc_agent.Memory.GraphStore.Query

-- A value of the answer, by the types that the code asserts.
pub data Cell (Any : Type 0) : Type 0 where
  of_node : Map String Any → Cell Any
  of_relationship : Map String Any → Cell Any
  of_int : ℕ → Cell Any
  of_string : String → Cell Any
  of_strings : List String → Cell Any
  -- A list of any values, of which those that are strings are given.
  of_list : List (Option String) → Cell Any
  other : Cell Any

abbrev pub Row : Type 0 → Type 0
Row Any = Map String (Cell Any)

pub data Error : Type 0 where
  refused : Query.Error → Error
  driver_failed unexpected_type : String → Error
  no_nodes_deleted : Error

pub record RelatedEntity (Any : Type 0) : Type 0 where
  pub entity : Map String Any
  pub distance : ℕ
  pub relationship_path : List String

pub record EntityRelationship (Any : Type 0) : Type 0 where
  pub relationship : Map String Any
  pub other_entity : Map String Any
  pub direction : String

pub record Stats : Type 0 where
  pub total_nodes : ℕ
  pub total_relationships : ℕ
  pub entity_nodes : ℕ
  pub memory_nodes : ℕ

-- The items of the list that are strings.
unfoldable pub strings_of : List (Option String) → List String
strings_of [] = []
strings_of (none ∷ items) = strings_of items
strings_of (some s ∷ items) = s ∷ strings_of items

module _ {Any : Type 0} where
  unfoldable pub to_string_slice : Option (Cell Any) → List String
  to_string_slice (some (of_strings l)) = l
  to_string_slice (some (of_list l)) = strings_of l
  to_string_slice _ = []

  unfoldable pub int_of : Option (Cell Any) → ℕ
  int_of (some (of_int n)) = n
  int_of _ = 0

  unfoldable pub string_of : Option (Cell Any) → String
  string_of (some (of_string s)) = s
  string_of _ = ""

  unfoldable pub node_of : String → Option (Cell Any) → Error ⊎ Map String Any
  node_of text (some (of_node props)) = inr props
  node_of text _ = inl (unexpected_type text)

  unfoldable pub relationship_of : Option (Cell Any) → Error ⊎ Map String Any
  relationship_of (some (of_relationship props)) = inr props
  relationship_of _ = inl (unexpected_type "unexpected relationship type")

  unfoldable pub related_of : Row Any → Error ⊎ RelatedEntity Any
  related_of row = elim (node_of "unexpected related entity type" (lookup "related" row)) [
    | inl e ↦ inl e
    | inr props ↦ inr (record {
      entity = props;
      distance = int_of (lookup "distance" row);
      relationship_path = to_string_slice (lookup "relationship_path" row);
    })
  ]

  unfoldable pub entity_relationship_of : Row Any → Error ⊎ EntityRelationship Any
  entity_relationship_of row = elim (relationship_of (lookup "r" row)) [
    | inl e ↦ inl e
    | inr rel ↦ elim (node_of "unexpected other entity type" (lookup "other" row)) [
      | inl e ↦ inl e
      | inr props ↦ inr (record {
        relationship = rel;
        other_entity = props;
        direction = string_of (lookup "direction" row);
      })
    ]
  ]

  -- The loop over the rows, up to the first error.
  unfoldable pub each_row : {A : Type 0} → (Row Any → Error ⊎ A) → List (Row Any) → Error ⊎ List A
  each_row f [] = inr []
  each_row f (row ∷ rows) = elim (f row) [
    | inl e ↦ inl e
    | inr a ↦ elim (each_row f rows) [ inl e ↦ inl e | inr l ↦ inr (a ∷ l) ]
  ]

unfoldable pub count_of : String → Map String ℕ → ℕ
count_of key results = elim (lookup key results) [ none ↦ 0 | some n ↦ n ]

abbrev pub stats_queries : List (String × String)
stats_queries =
    ("total_nodes", "MATCH (n {user_id: $user_id}) RETURN count(n) as count")
    ∷ (
      "total_relationships",
      "MATCH (a {user_id: $user_id})-[r]->(b {user_id: $user_id}) RETURN count(r) as count",
    )
    ∷ ("entity_nodes", "MATCH (n:Entity {user_id: $user_id}) RETURN count(n) as count")
    ∷ ("memory_nodes", "MATCH (n:Memory {user_id: $user_id}) RETURN count(n) as count")
    ∷ []

-- What the driver does with a query in a transaction, over the database's state `W`: all rows,
-- exactly one, or the number of the nodes that it has deleted.
pub record Driver (Any W : Type 0) : Type 0 where
  pub rows : Query Any → W → (String ⊎ List (Row Any)) × W
  pub single : Query Any → W → (String ⊎ Row Any) × W
  pub deleted : Query Any → W → (String ⊎ ℕ) × W

module _ {Any W : Type 0} (driver : Driver Any W) where
  unfoldable pub read_rows :
      {A : Type 0} → (Row Any → Error ⊎ A) → Query.Error ⊎ Query Any → W → (Error ⊎ List A) × W
  read_rows f (inl e) w = (inl (refused e), w)
  read_rows f (inr q) w =
      let answer = driver.rows q w in
      (elim answer.0 [ inl e ↦ inl (driver_failed e) | inr rows ↦ each_row f rows ], answer.1)

  unfoldable pub write_single : Query.Error ⊎ Query Any → W → Option Error × W
  write_single (inl e) w = (some (refused e), w)
  write_single (inr q) w =
      let answer = driver.single q w in
      (elim answer.0 [ inl e ↦ some (driver_failed e) | inr row ↦ none ], answer.1)

  unfoldable pub find_related_entities :
      String → String → List String → ℤ → ℤ → W → (Error ⊎ List (RelatedEntity Any)) × W
  find_related_entities user_id entity_id types max_depth limit w =
      read_rows related_of (find_related_query user_id entity_id types max_depth limit) w

  unfoldable pub search_entities_by_name :
      String → String → List String → ℤ → W → (Error ⊎ List (Map String Any)) × W
  search_entities_by_name user_id pattern types limit w =
      read_rows (λ row. node_of "unexpected entity type" (lookup "e" row))
        (search_entities_query user_id pattern types limit) w

  unfoldable pub get_entity_relationships :
      String → String → W → (Error ⊎ List (EntityRelationship Any)) × W
  get_entity_relationships user_id entity_id w =
      read_rows entity_relationship_of (get_relationships_query user_id entity_id) w

  unfoldable pub delete_with : Query.Error ⊎ Query Any → W → Option Error × W
  delete_with (inl e) w = (some (refused e), w)
  delete_with (inr q) w =
      let answer = driver.deleted q w in
      (
        elim answer.0 [
          | inl e ↦ some (driver_failed e)
          | inr n ↦ if n == 0 then some no_nodes_deleted else none
        ],
        answer.1,
      )

  unfoldable pub delete_entity : String → String → W → Option Error × W
  delete_entity user_id entity_id w = delete_with (delete_entity_query user_id entity_id) w

  unfoldable pub run_clear : Query.Error ⊎ Query Any → W → Option Error × W
  run_clear (inl e) w = (some (refused e), w)
  run_clear (inr q) w =
      let answer = driver.rows q w in
      (elim answer.0 [ inl e ↦ some (driver_failed e) | inr rows ↦ none ], answer.1)

  unfoldable pub clear_all : String → W → Option Error × W
  clear_all user_id w = run_clear (clear_all_query user_id) w

  -- The loop of `GetStats` over its map of queries, in the order in which it meets them.
  unfoldable pub count_each :
      String → List (String × String) → Map String ℕ → W → (Error ⊎ Map String ℕ) × W
  count_each user_id [] results w = (inr results, w)
  count_each user_id ((key, text) ∷ queries) results w =
      let answer =
        driver.single
          (record { text = text; params = ("user_id", of_text user_id) ∷ []; writes = false }) w in
      elim answer.0 [
        | inl e ↦ (inl (driver_failed e), answer.1)
        | inr row ↦
            count_each user_id queries (insert key (int_of (lookup "count" row)) results) answer.1
      ]

  -- `GetStats`; the four queries are in some order.
  unfoldable pub get_stats : List (String × String) → String → W → (Error ⊎ Stats) × W
  get_stats queries user_id w =
      if trim_space user_id =? ""
      then (inl (refused Query.user_id_required), w)
      else (let counted = count_each user_id queries [] w in
          (
            elim counted.0 [
              | inl e ↦ inl e
              | inr results ↦ inr (record {
                total_nodes = count_of "total_nodes" results;
                total_relationships = count_of "total_relationships" results;
                entity_nodes = count_of "entity_nodes" results;
                memory_nodes = count_of "memory_nodes" results;
              })
            ],
            counted.1,
          ))

  unfoldable pub add_entity :
      (String → Any)
      → (ℕ → Any)
      → ℕ
      → String
      → String
      → String
      → String
      → Map String Any
      → W
      → Option Error × W
  add_entity string_value time_value now user_id entity_id name entity_type props w =
      write_single
        (add_entity_query string_value time_value now user_id entity_id name entity_type props) w

  unfoldable pub add_relationship :
      (String → Any)
      → (ℕ → Any)
      → ℕ
      → String
      → String
      → String
      → String
      → Map String Any
      → W
      → Option Error × W
  add_relationship string_value time_value now user_id from_id to_id relationship_type props w =
      write_single
        (add_relationship_query string_value time_value now user_id from_id to_id relationship_type
          props)
        w
