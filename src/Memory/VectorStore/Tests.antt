-- ===== src/Memory/VectorStore/Tests.antt =====
-- Concrete statements.
use xgc_agent.Prelude.{◌≡◌, refl, true}
use xgc_agent.Prelude.Int.{pos}
use xgc_agent.Memory.VectorStore.Text.{Options, deleted_filter, delete_text, list_text}

abbrev options : Options
options = record {
  table = "memory_entries";
  dimension = 3;
  memory_limit = pos 10;
  soft_delete = true;
}

listed :
    list_text options (pos 5)
    ≡ "SELECT memory_id, user_id, content, topics, metadata, created_at, updated_at FROM memory_entries WHERE user_id = $1 AND deleted_at IS NULL ORDER BY updated_at DESC, created_at DESC LIMIT $2"
unfolding list_text deleted_filter
listed = refl

deleted :
    delete_text options
    ≡ "UPDATE memory_entries SET deleted_at = $1, updated_at = $2 WHERE user_id = $3 AND memory_id = $4 AND deleted_at IS NULL"
unfolding delete_text
deleted = refl
