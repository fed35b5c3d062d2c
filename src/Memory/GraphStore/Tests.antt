-- ===== src/Memory/GraphStore/Tests.antt =====
-- Concrete queries.
use xgc_agent.Prelude.{ℕ, ◌≡◌, refl, [], ◌∷◌, inl}
use xgc_agent.Prelude.Int.{pos}
use xgc_agent.Prelude.Text.{trim_space, trim_left, trim_right, is_space}
use xgc_agent.Memory.GraphStore.Query.{
  entity_id_required, relationship_type_invalid, is_word_char, all_word_chars,
  valid_relationship_type, check_entity, add_relationship_query, search_entities_query,
  find_related_query,
}
use xgc_agent.Memory.GraphStore.Plain.{IsQuiet, relationship_queries-IsQuiet}

-- A search by name fails whatever is searched for.
no_search : search_entities_query {Any = ℕ} "u" "Ann" [] (pos 5) ≡ inl entity_id_required
unfolding search_entities_query check_entity trim_space trim_left trim_right is_space
no_search = refl

refused_type :
    add_relationship_query {Any = ℕ} (λ s. 0) (λ t. t) 9 "u" "a" "b" "x]->() DETACH DELETE n" []
    ≡ inl relationship_type_invalid
unfolding add_relationship_query valid_relationship_type all_word_chars is_word_char trim_space
    trim_left trim_right is_space
refused_type = refl

relationship_queries-IsQuiet_example :
    IsQuiet (add_relationship_query {Any = ℕ} (λ s. 0) (λ t. t) 9 "u" "a" "b" "KNOWS" [])
    × IsQuiet (find_related_query {Any = ℕ} "u" "a" ("KNOWS" ∷ "LIKES" ∷ []) (pos 3) (pos 10))
relationship_queries-IsQuiet_example =
    relationship_queries-IsQuiet (λ s. 0) (λ t. t) 9 "u" "a" "b" ("KNOWS" ∷ "LIKES" ∷ []) "KNOWS" []
      (pos 3) (pos 10)
