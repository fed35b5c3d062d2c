-- ===== src/Memory/VectorStore/Methods.antt =====
-- The methods of the vector store, over the database. A method returns its error or result and the
-- database that it leaves; a time is a number, and a float is its bits.
use xgc_agent.Prelude.{
  ℕ, String, not, ◌&&◌, Option, none, some, List, [], ◌∷◌, ◌++◌, if◌then◌else◌, ◌==◌, length, ◌=?◌,
  string_eq, ◌⊎◌, inl, inr,
}
use xgc_agent.Prelude.Int.{ℤ, is_nonpos, to_ℕ}
use xgc_agent.Prelude.Maps.{Map}
use xgc_agent.Memory.Item.{Memory, MemoryItem, untyped, generate_memory_id}
use xgc_agent.Memory.VectorStore.Text.{
  Options, insert_text, get_text, update_text, delete_text, clear_text, list_text,
}

pub data Error : Type 0 where
  user_id_required memory_id_required not_found embedding_unavailable : Error
  embedding_failed metadata_failed database_failed : String → Error
  dimension_mismatch : ℕ → ℕ → Error
  limit_exceeded : String → ℤ → Error
  entry_not_found : String → String → Error
  -- An index out of range, or a call through a nil interface.
  panics : Error

pub data Arg : Type 0 where
  of_text : String → Arg
  of_texts : List String → Arg
  of_json : String → Arg
  of_vector : List ℕ → Arg
  of_time of_number : ℕ → Arg

-- A row of the columns that are selected; `metadata` is what JSON makes of its text.
pub record Row (Any : Type 0) : Type 0 where
  pub memory_id : String
  pub user_id : String
  pub content : String
  pub topics : List String
  pub metadata : String ⊎ Map String Any
  pub created_at : ℕ
  pub updated_at : ℕ

-- The database: the number of rows that a statement has changed, or the rows of a query. `to_json`
-- is what JSON writes of the metadata, and `embed` the service, if there is one.
pub record Client (Any W : Type 0) : Type 0 where
  pub exec : String → List Arg → W → (String ⊎ ℕ) × W
  pub query : String → List Arg → W → (String ⊎ List (Row Any)) × W
  pub to_json : Map String Any → String ⊎ String
  pub embed : Option (String → String ⊎ List (List ℕ))
  pub print : Any → String
  pub sha256 : String → String

module _ {Any : Type 0} where
  unfoldable pub scan_memory_entry : Row Any → Error ⊎ MemoryItem Any
  scan_memory_entry row = elim row.metadata [
    | inl e ↦ inl (metadata_failed e)
    | inr metadata ↦ inr (record {
      memory_id = row.memory_id;
      user_id = row.user_id;
      session_id = "";
      memory_type = untyped;
      memory = some (record { content = row.content; topics = row.topics; metadata = metadata });
      created_at = row.created_at;
      updated_at = row.updated_at;
      expires_at = none;
      embedding = [];
      score = 0;
      confidence = 0;
    })
  ]

  unfoldable pub scan_all : List (Row Any) → Error ⊎ List (MemoryItem Any)
  scan_all [] = inr []
  scan_all (row ∷ rows) = elim (scan_memory_entry row) [
    | inl e ↦ inl e
    | inr item ↦ elim (scan_all rows) [ inl e ↦ inl e | inr items ↦ inr (item ∷ items) ]
  ]

  -- `Get` reads the first row, if there is one.
  unfoldable pub scan_first : List (Row Any) → Error ⊎ MemoryItem Any
  scan_first [] = inl not_found
  scan_first (row ∷ rows) = scan_memory_entry row

-- The first embedding, if it has the dimension.
unfoldable pub check_embedding : ℕ → String ⊎ List (List ℕ) → Error ⊎ List ℕ
check_embedding dimension (inl e) = inl (embedding_failed e)
check_embedding dimension (inr []) = inl panics
check_embedding dimension (inr (v ∷ vs)) =
    if length v == dimension then inr v else inl (dimension_mismatch dimension (length v))

module _ {Any W : Type 0} (client : Client Any W) (o : Options) where
  unfoldable pub embedding_of : Error → String → Error ⊎ List ℕ
  embedding_of missing content = elim client.embed [
    | none ↦ inl missing
    | some embed ↦ check_embedding o.dimension (embed content)
  ]

  -- The check of the affected rows, which only a limit asks for.
  unfoldable pub added : String → (String ⊎ ℕ) × W → Option Error × W
  added user_id (inl e, w) = (some (database_failed e), w)
  added user_id (inr affected, w) =
      if not (is_nonpos o.memory_limit) && affected == 0
      then (some (limit_exceeded user_id o.memory_limit), w)
      else (none, w)

  abbrev limit_args : List Arg
  limit_args = if is_nonpos o.memory_limit then [] else of_number (to_ℕ o.memory_limit) ∷ []

  unfoldable pub insert_row :
      ℕ → String → Memory Any → List ℕ → String ⊎ String → W → Option Error × W
  insert_row now user_id memory v (inl e) w = (some (metadata_failed e), w)
  insert_row now user_id memory v (inr json) w = added user_id (
      client.exec (insert_text o)
        ((of_text (generate_memory_id client.print client.sha256 memory user_id)
            ∷ of_text user_id
            ∷ of_text memory.content
            ∷ of_texts memory.topics
            ∷ of_json json
            ∷ of_vector v
            ∷ of_time now
            ∷ of_time now
            ∷ [])
          ++ limit_args)
        w)

  unfoldable pub add : ℕ → String → Memory Any → W → Option Error × W
  add now user_id memory w =
      if user_id =? ""
      then (some user_id_required, w)
      else elim (embedding_of embedding_unavailable memory.content) [
        | inl e ↦ (some e, w)
        | inr v ↦ insert_row now user_id memory v (client.to_json memory.metadata) w
      ]

  unfoldable pub found :
      {A : Type 0} → (List (Row Any) → Error ⊎ A) → (String ⊎ List (Row Any)) × W → (Error ⊎ A) × W
  found f (inl e, w) = (inl (database_failed e), w)
  found f (inr rows, w) = (f rows, w)

  unfoldable pub get : String → String → W → (Error ⊎ MemoryItem Any) × W
  get user_id memory_id w =
      if user_id =? ""
      then (inl user_id_required, w)
      else if memory_id =? ""
      then (inl memory_id_required, w)
      else found scan_first (client.query (get_text o) (of_text user_id ∷ of_text memory_id ∷ []) w)

  unfoldable pub updated : String → String → (String ⊎ ℕ) × W → Option Error × W
  updated user_id memory_id (inl e, w) = (some (database_failed e), w)
  updated user_id memory_id (inr affected, w) =
      if affected == 0 then (some (entry_not_found user_id memory_id), w) else (none, w)

  unfoldable pub update_row :
      ℕ → String → String → Memory Any → List ℕ → String ⊎ String → W → Option Error × W
  update_row now user_id memory_id memory v (inl e) w = (some (metadata_failed e), w)
  update_row now user_id memory_id memory v (inr json) w = updated user_id memory_id (
      client.exec (update_text o)
        (of_text memory.content
          ∷ of_texts memory.topics
          ∷ of_json json
          ∷ of_vector v
          ∷ of_time now
          ∷ of_text user_id
          ∷ of_text memory_id
          ∷ [])
        w)

  -- There is no test of the embedding service here, and a missing one panics.
  unfoldable pub update : ℕ → String → String → Memory Any → W → Option Error × W
  update now user_id memory_id memory w =
      if user_id =? ""
      then (some user_id_required, w)
      else if memory_id =? ""
      then (some memory_id_required, w)
      else elim (embedding_of panics memory.content) [
        | inl e ↦ (some e, w)
        | inr v ↦ update_row now user_id memory_id memory v (client.to_json memory.metadata) w
      ]

  unfoldable pub executed : (String ⊎ ℕ) × W → Option Error × W
  executed (inl e, w) = (some (database_failed e), w)
  executed (inr affected, w) = (none, w)

  abbrev time_args : ℕ → List Arg
  time_args now = if o.soft_delete then of_time now ∷ of_time now ∷ [] else []

  unfoldable pub delete : ℕ → String → String → W → Option Error × W
  delete now user_id memory_id w =
      if user_id =? ""
      then (some user_id_required, w)
      else if memory_id =? ""
      then (some memory_id_required, w)
      else executed (
          client.exec (delete_text o) (time_args now ++ of_text user_id ∷ of_text memory_id ∷ []) w)

  unfoldable pub clear : ℕ → String → W → Option Error × W
  clear now user_id w =
      if user_id =? ""
      then (some user_id_required, w)
      else executed (client.exec (clear_text o) (time_args now ++ of_text user_id ∷ []) w)

  unfoldable pub list : String → ℤ → W → (Error ⊎ List (MemoryItem Any)) × W
  list user_id limit w =
      if user_id =? ""
      then (inl user_id_required, w)
      else found scan_all (
          client.query (list_text o limit)
            (of_text user_id ∷ (if is_nonpos limit then [] else of_number (to_ℕ limit) ∷ [])) w)
