-- ===== src/Memory/StoreTests.antt =====
-- Concrete runs of the memory items and of the store in memory.
use mathlib.Core.Option as Option
use mathlib.Core.List.Perm
use mathlib.Core.List.{Perm}
use xgc_agent.Prelude.{
  ℕ, min, ◌≡◌, refl, String, not, ◌&&◌, none, some, List, [], ◌∷◌, map, take, length, if◌then◌else◌,
  ◌==◌, ◌=?◌, string_eq, string_iff, arith, is_some, inr,
}
use xgc_agent.Prelude.Int.{pos, is_nonpos}
use xgc_agent.Prelude.Maps.{Map, lookup}
use xgc_agent.Prelude.Sort.{IsSorted, sort, insert_sorted}
use xgc_agent.Prelude.Text.{before}
use xgc_agent.Memory.Item.{
  Memory, MemoryItem, memory_text, metadata_text, topics_text, printed, join, generate_memory_id,
  memory_limit_exceeded,
}
use xgc_agent.Memory.Item.Id.{generate_memory_id-Perm}
use xgc_agent.Memory.InMemory.{
  InMemoryStore, at_limit, new_in_memory_store, create_memory_entry, items_of, add, update,
  delete_item, list, newer,
}
use xgc_agent.Memory.InMemory.Invariant.{IsValid}
use xgc_agent.Memory.InMemory.Laws.{find, find-add, find-update, find-delete_item, list_lem}
use xgc_agent.Memory.InMemory.Runs.{
  Call, add_call, update_call, delete_call, clear_call, run, run-new_in_memory_store,
}

abbrev print : ℕ → String
print n = if n == 1 then "1" else "0"

abbrev plain : String → String
plain text = text

abbrev note : Memory ℕ
note = record {
  content = "tea";
  topics = "food" ∷ "drink" ∷ [];
  metadata = ("b", 1) ∷ ("a", 0) ∷ [];
}

abbrev same_note : Memory ℕ
same_note = record {
  content = "tea";
  topics = "drink" ∷ "food" ∷ [];
  metadata = ("a", 0) ∷ ("b", 1) ∷ [];
}

memory_text-note :
    memory_text print note "u" ≡ "memory:tea|topics:drink,food|metadata:a=0,b=1,|user:u"
unfolding memory_text metadata_text topics_text printed join sort insert_sorted before lookup
memory_text-note = refl

-- A content that ends like a user's part, and a user's name that begins like it.
two_users :
    memory_text print (record { content = "tea|user:u"; topics = []; metadata = [] }) "v"
    ≡ memory_text print (record { content = "tea"; topics = []; metadata = [] }) "u|user:v"
unfolding memory_text metadata_text topics_text
two_users = refl

same_values : (k : String) → lookup k note.metadata ≡ lookup k same_note.metadata
unfolding lookup
same_values k = ground (arith, string_iff "a" k, string_iff "b" k, string_iff "a" "b")

generate_memory_id-Perm_example :
    generate_memory_id print plain note "u" ≡ generate_memory_id print plain same_note "u"
generate_memory_id-Perm_example =
    generate_memory_id-Perm print plain note same_note "u" refl (Perm.swap "drink" "food" [])
      (Perm.swap "a" "b" []) same_values

abbrev calls : List (Call ℕ)
calls =
    add_call 3 "u" note
    ∷ add_call 4 "u" note
    ∷ update_call 5 "u" "x" note
    ∷ delete_call "u" "x"
    ∷ clear_call "v"
    ∷ []

run-new_in_memory_store_example :
    IsValid (run print plain calls (new_in_memory_store (some (pos 1))))
run-new_in_memory_store_example = run-new_in_memory_store print plain (some (pos 1)) calls

abbrev short : String → String
short _ = "id"

abbrev one_entry : InMemoryStore ℕ
one_entry = record {
  memories = ("u", ("id", create_memory_entry print short 3 "u" note) ∷ []) ∷ [];
  memory_limit = pos 1;
}

-- At the limit an entry is refused even if its id is there.
add_again : (add print short 4 "u" note one_entry).0 ≡ some memory_limit_exceeded
unfolding add items_of lookup
add_again = refl

abbrev u : String
u = "u"

abbrev v : String
v = "v"

abbrev key : String
key = "id"

find-add_example :
    let entry = create_memory_entry print short 5 v note in
    let taken = not (v =? "") && not (at_limit (length (items_of v one_entry)) (pos 1)) in
    (is_some (add print short 5 v note one_entry).0 ≡ not taken)
    × (find v key (add print short 5 v note one_entry).1
        ≡ (if taken && v =? v && entry.memory_id =? key then some entry else find v key one_entry))
find-add_example = find-add print short 5 v note one_entry v key

find-update_example :
    let there = not (u =? "") && not (key =? "") && is_some (find u key one_entry) in
    (is_some (update 7 u key same_note one_entry).0 ≡ not there)
    × (find u key (update 7 u key same_note one_entry).1 ≡ (
        if there && u =? u && key =? key
        then Option.map {A = MemoryItem ℕ}
            (λ entry. record entry { memory = some same_note; updated_at = 7 })
            (find u key one_entry)
        else find u key one_entry))
find-update_example = find-update 7 u key same_note one_entry u key

find-delete_item_example :
    let there = not (u =? "") && not (key =? "") && is_some (find u key one_entry) in
    (is_some (delete_item u key one_entry).0 ≡ not there)
    × (find u key (delete_item u key one_entry).1
        ≡ (if there && u =? u && key =? key then none else find u key one_entry))
find-delete_item_example = find-delete_item u key one_entry u key

abbrev as_stored : Map String (MemoryItem ℕ) → Map String (MemoryItem ℕ)
as_stored m = m

list_lem_example :
    (out : List (MemoryItem ℕ)) × (list as_stored u (pos 2) one_entry ≡ inr out)
    × (length out ≡ (
        if is_nonpos (pos 2)
        then length (items_of u one_entry)
        else min 2 (length (items_of u one_entry))))
    × Perm out (take (length out) (map (λ e. e.1) (items_of u one_entry)))
    × IsSorted newer out
list_lem_example = list_lem as_stored u (pos 2) one_entry refl refl
