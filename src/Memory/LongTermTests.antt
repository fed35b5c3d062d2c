-- ===== src/Memory/LongTermTests.antt =====
-- Concrete long-term memories, and a manager's run.
use xgc_agent.Prelude.{ℕ, suc, ◌+◌, ◌≡◌, refl, String, none, some, List, [], ◌∷◌, inl, inr}
use xgc_agent.Prelude.Int.{pos}
use xgc_agent.Prelude.Maps.{lookup}
use xgc_agent.Message.{message_user}
use xgc_agent.Memory.Item.{MemoryItem, MemoryType, episodic, semantic, not_found}
use xgc_agent.Memory.Episodic.{in_range, range_loop}
use xgc_agent.Memory.LongTerm.{BaseMemory, is_episodic, add}
use xgc_agent.Memory.LongTerm.{each, add_one}
use xgc_agent.Memory.Manager.{
  Parts, MemoryManager, new_item, message_item, add_message, role_of, messages_of, summarize_with,
  summary_item, store_summary, promote_messages, promote_items, promote_from, promote,
}

abbrev item : ℕ → MemoryType → MemoryItem String
item created memory_type = record {
  memory_id = "";
  user_id = "";
  session_id = "";
  memory_type = memory_type;
  memory = none;
  created_at = created;
  updated_at = 0;
  expires_at = none;
  embedding = [];
  score = 0;
  confidence = 0;
}

first_two :
    range_loop
      (pos 2)
      3
      8
      (item 1 episodic ∷ item 3 episodic ∷ item 9 episodic ∷ item 8 episodic ∷ item 4 episodic ∷ [])
      []
    ≡ item 3 episodic ∷ item 8 episodic ∷ []
unfolding range_loop in_range
first_two = refl

-- A memory that counts its items.
abbrev counter : BaseMemory String ℕ
counter = record {
  add = λ items s. (none, suc s);
  update = λ items s. (none, s);
  get = λ id s. inl not_found;
  list = λ opts s. inr [];
  delete = λ id s. (none, s);
  clear = λ s. (none, 0);
  search = λ query limit s. inr [];
}

abbrev three : List (MemoryItem String)
three = item 1 episodic ∷ item 2 semantic ∷ item 3 episodic ∷ []

-- The episodic memory gets two items, the semantic one the third.
stored : add counter counter three (0, 0) ≡ (none, 2, 1)
unfolding add each add_one is_episodic
stored = refl

-- Memories that keep their items, and a summary that is always the same.
abbrev parts : Parts String (List (MemoryItem String)) (List (MemoryItem String)) ℕ
parts = record {
  add_short = λ it s. (none, it ∷ s);
  snapshot = λ s. (inr s, s);
  add_long = λ it l. (none, it ∷ l);
  search_long = λ query limit l. inr l;
  summarize = λ msgs v. (inr "short", v + 1);
  of_string = λ s. s;
  as_string = λ s. some s;
}

abbrev manager : MemoryManager (List (MemoryItem String)) (List (MemoryItem String)) ℕ
manager = record { short_memory = some []; long_memory = some []; summarizer = some 0 }

promoted :
    (promote parts "s" (add_message parts "s" (message_user "hello") manager).1).1.long_memory
    ≡ some (summary_item parts "s" "short" ∷ [])
unfolding promote promote_from promote_items promote_messages store_summary summarize_with
    messages_of role_of add_message message_item new_item lookup
promoted = refl
