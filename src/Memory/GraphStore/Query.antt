-- ===== src/Memory/GraphStore/Query.antt =====
-- The queries of the graph store, as they are built from the arguments of its methods.
use Prim.Native.Char.{code}
use Prim.Native.String.{[] as end, ◌∷◌ as ◌then◌, ◌++◌}
use xgc_agent.Prelude.{
  ℕ, String, Bool, true, false, not, ◌&&◌, ◌||◌, Option, none, some, List, [], ◌∷◌, if◌then◌else◌,
  leb, ◌==◌, ◌=?◌, string_eq, ◌⊎◌, inl, inr,
}
use xgc_agent.Prelude.Int.{ℤ, is_nonpos, to_ℕ}
use xgc_agent.Prelude.Maps.{Map, insert, has}
use xgc_agent.Prelude.Text.{trim_space, decimal}

pub data Error : Type 0 where
  user_id_required entity_id_required name_required type_required : Error
  from_id_required to_id_required relationship_type_invalid : Error

-- A parameter of a query; `Any` stands for the values of properties.
pub data Param (Any : Type 0) : Type 0 where
  of_text : String → Param Any
  of_number : ℕ → Param Any
  of_texts : List String → Param Any
  of_props : Map String Any → Param Any

pub record Query (Any : Type 0) : Type 0 where
  pub text : String
  pub params : List (String × Param Any)
  pub writes : Bool

-- `(r >= 'a' && r <= 'z') || … || r == '_'`
unfoldable pub is_word_char : ℕ → Bool
is_word_char c =
    (leb 97 c && leb c 122) || ((leb 65 c && leb c 90) || ((leb 48 c && leb c 57) || c == 95))

unfoldable pub all_word_chars : String → Bool
all_word_chars end = true
all_word_chars (c then s) = is_word_char (code c) && all_word_chars s

unfoldable pub valid_relationship_type : String → Bool
valid_relationship_type rel_type = not (trim_space rel_type =? "") && all_word_chars rel_type

unfoldable pub check_entity : String → String → Option Error
check_entity user_id entity_id =
    if trim_space user_id =? ""
    then some user_id_required
    else if trim_space entity_id =? ""
    then some entity_id_required
    else none

-- `strings.Join`
unfoldable pub join_with : String → List String → String
join_with sep [] = ""
join_with sep (x ∷ []) = x
join_with sep (x ∷ y ∷ xs) = x ++ sep ++ join_with sep (y ∷ xs)

-- Every type is valid, else the loop returns an error.
unfoldable pub all_valid : List String → Bool
all_valid [] = true
all_valid (t ∷ types) = valid_relationship_type t && all_valid types

unfoldable pub rel_filter : List String → String
rel_filter [] = ""
rel_filter (t ∷ types) = ":" ++ join_with "|" (t ∷ types)

-- `if n <= 0 { n = default }`
unfoldable pub or_default : ℕ → ℤ → ℕ
or_default default n = if is_nonpos n then default else to_ℕ n

abbrev pub relationship_head : String
relationship_head =
    "MATCH (from:Entity {id: $from_id, user_id: $user_id}) MATCH (to:Entity {id: $to_id, user_id: $user_id}) MERGE (from)-[r:"

abbrev pub relationship_tail : String
relationship_tail = "]->(to) SET r += $props RETURN r"

unfoldable pub relationship_text : String → String
relationship_text relationship_type = relationship_head ++ relationship_type ++ relationship_tail

abbrev pub related_head : String
related_head = "MATCH path = (start:Entity {id: $entity_id, user_id: $user_id})-[r"

abbrev pub related_tail : String
related_tail =
    "]-(related:Entity {user_id: $user_id}) WHERE start.id <> related.id RETURN DISTINCT related, length(path) AS distance, [rel in relationships(path) | type(rel)] AS relationship_path ORDER BY distance, related.name LIMIT $limit"

unfoldable pub related_text : List String → ℕ → String
related_text types max_depth =
    related_head ++ rel_filter types ++ "*1.." ++ decimal max_depth ++ related_tail

module _ {Any : Type 0} (of_string : String → Any) (of_time : ℕ → Any) where
  -- The properties of the caller, with those of the code over them, and a time of creation where the
  -- caller has none.
  unfoldable pub with_times : ℕ → Map String Any → Map String Any
  with_times now props =
      let updated = insert "updated_at" (of_time now) props in
      if has "created_at" updated then updated else insert "created_at" (of_time now) updated

  unfoldable pub entity_props :
      ℕ → String → String → String → String → Map String Any → Map String Any
  entity_props now user_id entity_id name entity_type props = with_times now (
      insert "type" (of_string entity_type) (
        insert "name" (of_string name)
          (insert "user_id" (of_string user_id) (insert "id" (of_string entity_id) props))))

  unfoldable pub add_entity_query :
      ℕ → String → String → String → String → Map String Any → Error ⊎ Query Any
  add_entity_query now user_id entity_id name entity_type props =
      elim (check_entity user_id entity_id) [
        | some e ↦ inl e
        | none ↦
            if trim_space name =? ""
            then inl name_required
            else if trim_space entity_type =? ""
            then inl type_required
            else inr (record {
              text =
                  "MERGE (e:Entity {id: $entity_id, user_id: $user_id}) SET e += $props RETURN e";
              params =
                  ("entity_id", of_text entity_id)
                  ∷ ("user_id", of_text user_id)
                  ∷ ("props", of_props (entity_props now user_id entity_id name entity_type props))
                  ∷ [];
              writes = true;
            })
      ]

  unfoldable pub add_relationship_query :
      ℕ → String → String → String → String → Map String Any → Error ⊎ Query Any
  add_relationship_query now user_id from_id to_id relationship_type props =
      if trim_space user_id =? ""
      then inl user_id_required
      else if trim_space from_id =? ""
      then inl from_id_required
      else if trim_space to_id =? ""
      then inl to_id_required
      else if not (valid_relationship_type relationship_type)
      then inl relationship_type_invalid
      else inr (record {
        text = relationship_text relationship_type;
        params =
            ("from_id", of_text from_id)
            ∷ ("to_id", of_text to_id)
            ∷ ("user_id", of_text user_id)
            ∷ (
              "props",
              of_props (with_times now (insert "type" (of_string relationship_type) props)),
            )
            ∷ [];
        writes = true;
      })

module _ {Any : Type 0} where
  unfoldable pub find_related_query : String → String → List String → ℤ → ℤ → Error ⊎ Query Any
  find_related_query user_id entity_id types max_depth limit =
      elim (check_entity user_id entity_id) [
        | some e ↦ inl e
        | none ↦
            if not (all_valid types)
            then inl relationship_type_invalid
            else inr (record {
              text = related_text types (or_default 2 max_depth);
              params =
                  ("entity_id", of_text entity_id)
                  ∷ ("user_id", of_text user_id)
                  ∷ ("limit", of_number (or_default 50 limit))
                  ∷ [];
              writes = false;
            })
      ]

  -- The text and the parameter of the filter on types.
  unfoldable pub type_filter : List String → String × List (String × Param Any)
  type_filter [] = ("", [])
  type_filter (t ∷ types) = ("AND e.type IN $types", ("types", of_texts (t ∷ types)) ∷ [])

  -- The check is made with an empty entity id.
  unfoldable pub search_entities_query : String → String → List String → ℤ → Error ⊎ Query Any
  search_entities_query user_id pattern types limit = elim (check_entity user_id "") [
    | some e ↦ inl e
    | none ↦ inr (record {
      text =
          "MATCH (e:Entity) WHERE e.user_id = $user_id AND e.name =~ $pattern "
          ++ (type_filter types).0
          ++ " RETURN e ORDER BY e.name LIMIT $limit";
      params =
          ("user_id", of_text user_id)
          ∷ ("pattern", of_text (".*" ++ pattern ++ ".*"))
          ∷ ("limit", of_number (or_default 20 limit))
          ∷ (type_filter types).1;
      writes = false;
    })
  ]

  -- A query on one entity, with a fixed text.
  unfoldable pub entity_query : String → Bool → String → String → Error ⊎ Query Any
  entity_query text writes user_id entity_id = elim (check_entity user_id entity_id) [
    | some e ↦ inl e
    | none ↦ inr (record {
      text = text;
      params = ("entity_id", of_text entity_id) ∷ ("user_id", of_text user_id) ∷ [];
      writes = writes;
    })
  ]

  unfoldable pub get_relationships_query : String → String → Error ⊎ Query Any
  get_relationships_query user_id entity_id =
      entity_query
        "MATCH (e:Entity {id: $entity_id, user_id: $user_id})-[r]-(other:Entity {user_id: $user_id}) RETURN r, other, CASE WHEN startNode(r).id = $entity_id THEN 'outgoing' ELSE 'incoming' END AS direction"
        false user_id entity_id

  unfoldable pub delete_entity_query : String → String → Error ⊎ Query Any
  delete_entity_query user_id entity_id =
      entity_query "MATCH (e:Entity {id: $entity_id, user_id: $user_id}) DETACH DELETE e" true
        user_id entity_id

  -- A query on all of a user.
  unfoldable pub user_query : String → Bool → String → Error ⊎ Query Any
  user_query text writes user_id =
      if trim_space user_id =? ""
      then inl user_id_required
      else inr (record { text = text; params = ("user_id", of_text user_id) ∷ []; writes = writes })

  unfoldable pub clear_all_query : String → Error ⊎ Query Any
  clear_all_query user_id = user_query "MATCH (n {user_id: $user_id}) DETACH DELETE n" true user_id
