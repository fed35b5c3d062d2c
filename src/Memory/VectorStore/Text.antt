-- ===== src/Memory/VectorStore/Text.antt =====
-- The texts of the statements of the vector store.
use Prim.Native.String.{◌++◌}
use xgc_agent.Prelude.{ℕ, String, Bool, if◌then◌else◌}
use xgc_agent.Prelude.Int.{ℤ, is_nonpos}

-- The options that the methods read.
pub record Options : Type 0 where
  pub table : String
  pub dimension : ℕ
  pub memory_limit : ℤ
  pub soft_delete : Bool

unfoldable pub deleted_filter : Options → String
deleted_filter o = if o.soft_delete then " AND deleted_at IS NULL" else ""

abbrev pub insert_columns : String
insert_columns =
    " (memory_id, user_id, content, topics, metadata, embedding, created_at, updated_at) "

abbrev pub on_conflict : String
on_conflict =
    "ON CONFLICT (memory_id) DO UPDATE SET content = EXCLUDED.content, topics = EXCLUDED.topics, metadata = EXCLUDED.metadata, embedding = EXCLUDED.embedding, deleted_at = NULL, updated_at = EXCLUDED.updated_at"

-- With a limit, the row goes in only if it is there already or the user has fewer rows.
unfoldable pub insert_text : Options → String
insert_text o =
    if is_nonpos o.memory_limit
    then "INSERT INTO " ++ o.table ++ insert_columns ++ "VALUES ($1, $2, $3, $4, $5, $6, $7, $8) "
      ++ on_conflict
    else "WITH existing AS (SELECT 1 FROM "
      ++ o.table
      ++ " WHERE memory_id = $1 AND user_id = $2"
      ++ deleted_filter o
      ++ "), cnt AS (SELECT COUNT(*) AS c FROM "
      ++ o.table
      ++ " WHERE user_id = $2"
      ++ deleted_filter o
      ++ ") INSERT INTO "
      ++ o.table
      ++ insert_columns
      ++ "SELECT $1, $2, $3, $4, $5, $6, $7, $8 WHERE (EXISTS (SELECT 1 FROM existing) OR (SELECT c FROM cnt) < $9) "
      ++ on_conflict

abbrev pub selected : String
selected = "SELECT memory_id, user_id, content, topics, metadata, created_at, updated_at FROM "

unfoldable pub get_text : Options → String
get_text o = selected ++ o.table ++ " WHERE user_id = $1 AND memory_id = $2" ++ deleted_filter o

unfoldable pub update_text : Options → String
update_text o =
    "UPDATE "
    ++ o.table
    ++ " SET content = $1, topics = $2, metadata = $3, embedding = $4, updated_at = $5 WHERE user_id = $6 AND memory_id = $7"
    ++ deleted_filter o

unfoldable pub delete_text : Options → String
delete_text o =
    if o.soft_delete
    then "UPDATE " ++ o.table
      ++ " SET deleted_at = $1, updated_at = $2 WHERE user_id = $3 AND memory_id = $4 AND deleted_at IS NULL"
    else "DELETE FROM " ++ o.table ++ " WHERE user_id = $1 AND memory_id = $2"

unfoldable pub clear_text : Options → String
clear_text o =
    if o.soft_delete
    then "UPDATE " ++ o.table
      ++ " SET deleted_at = $1, updated_at = $2 WHERE user_id = $3 AND deleted_at IS NULL"
    else "DELETE FROM " ++ o.table ++ " WHERE user_id = $1"

unfoldable pub list_text : Options → ℤ → String
list_text o limit =
    selected
    ++ o.table
    ++ " WHERE user_id = $1"
    ++ deleted_filter o
    ++ " ORDER BY updated_at DESC, created_at DESC"
    ++ (if is_nonpos limit then "" else " LIMIT $2")
