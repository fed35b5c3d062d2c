-- ===== src/Memory/ShortTermTests.antt =====
-- Concrete runs of the short-term memory, over a store that is a map from ids to items.
use xgc_agent.Prelude.{
  ℕ, ◌≡◌, refl, String, not, none, some, List, [], ◌∷◌, keep, string_eq, inl, inr,
}
use xgc_agent.Prelude.Int.{pos}
use xgc_agent.Prelude.Maps.{Map, lookup, insert, delete}
use xgc_agent.Memory.Item.{MemoryItem, untyped, not_found}
use xgc_agent.Memory.IdRing.{new_id_ring}
use xgc_agent.Memory.IdRing.Slots.{contents, IsValid}
use xgc_agent.Memory.IdRing.Queue.{new_id_ring-IsValid}
use xgc_agent.Memory.ShortTerm.{ShortTermMemory, StoreManager, Values, item_id, panics}
use xgc_agent.Memory.ShortTerm.Calls.{is_stale, forget, cleanup_expired, add_items, add}
use xgc_agent.Memory.ShortTerm.Window.{window}
use xgc_agent.Memory.ShortTerm.Added.{queued_all, order-add}

abbrev Kept : Type 0
Kept = Map String (MemoryItem ℕ)

abbrev manager : StoreManager ℕ Kept
manager = record {
  add = λ item kept. (none, insert item.memory_id item kept);
  get = λ user id kept. elim (lookup id kept) [ none ↦ inl not_found | some item ↦ inr item ];
  update = λ user id memory kept. (none, kept);
  delete = λ user id kept. (none, delete id kept);
  clear = λ user kept. (none, []);
}

abbrev plain_values : Values ℕ
plain_values = record { print = λ n. "0"; sha256 = λ text. text; of_string = λ text. 0 }

abbrev numbered : String → MemoryItem ℕ
numbered id = record {
  memory_id = id;
  user_id = "u";
  session_id = "";
  memory_type = untyped;
  memory = none;
  created_at = 0;
  updated_at = 0;
  expires_at = none;
  embedding = [];
  score = 0;
  confidence = 0;
}

abbrev fresh : ShortTermMemory Kept
fresh = record {
  user_id = "u";
  session_id = "s";
  ttl = pos 5;
  capacity = pos 2;
  store = [];
  order = new_id_ring (pos 2);
}

abbrev three : List (MemoryItem ℕ)
three = numbered "a" ∷ numbered "b" ∷ numbered "c" ∷ []

three_added : (add manager plain_values 7 three fresh).0 ≡ none
unfolding add add_items item_id cleanup_expired forget
three_added = refl

-- An item without an id and without a memory makes `Add` panic.
no_memory : (add manager plain_values 7 (numbered "" ∷ []) fresh).0 ≡ some panics
unfolding add add_items item_id cleanup_expired forget
no_memory = refl

order-add_example :
    IsValid (add manager plain_values 7 three fresh).1.order
    × (contents (add manager plain_values 7 three fresh).1.order
        ≡ window (pos 2) (
            queued_all plain_values three
              (keep (λ id. not (is_stale manager 7 fresh id)) (contents fresh.order))))
order-add_example =
    order-add manager plain_values 7 three fresh (new_id_ring-IsValid (pos 2)).0 three_added

last_two : window (pos 2) (queued_all plain_values three (contents fresh.order)) ≡ "b" ∷ "c" ∷ []
unfolding queued_all item_id new_id_ring
last_two = refl
