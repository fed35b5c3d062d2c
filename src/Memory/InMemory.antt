-- ===== src/Memory/InMemory.antt =====
-- `InMemoryStore` of memory/store/inmem/inmem.go: for each user, the items by their ids. An entry
-- is a value here, so what a caller does to an entry that `Get` or `List` gave it is not modelled.
-- A method returns its error and the store that it leaves.
pub mod Invariant
pub mod Runs
pub mod Laws
use xgc_agent.Prelude.{
  ℕ, String, Bool, true, false, Option, none, some, List, [], ◌∷◌, map, if◌then◌else◌, ltb, leb,
  ◌==◌, length, take, ◌=?◌, string_eq, ◌⊎◌, inl, inr,
}
use xgc_agent.Prelude.Int.{ℤ, pos, negsuc, is_nonpos, to_ℕ}
use xgc_agent.Prelude.Maps.{Map, lookup, insert, delete, has}
use xgc_agent.Prelude.Sort.{sort}
use xgc_agent.Memory.Item.{
  Memory, MemoryItem, untyped, Error, user_id_required, memory_id_required, memory_limit_exceeded,
  not_found, invalid_id, generate_memory_id,
}

pub record InMemoryStore (Any : Type 0) : Type 0 where
  pub memories : Map String (Map String (MemoryItem Any))
  pub memory_limit : ℤ

-- `n >= limit`
abbrev pub at_limit : ℕ → ℤ → Bool
at_limit n (pos limit) = leb limit n
at_limit n (negsuc limit) = true

-- `if limit <= 0 || n <= limit { limit = n }`
unfoldable pub list_limit : ℤ → ℕ → ℕ
list_limit limit n = if is_nonpos limit then n else if leb n (to_ℕ limit) then n else to_ℕ limit

module _ {Any : Type 0} where
  -- The limit is the option `WithMemoryLimit`, if it is given.
  unfoldable pub new_in_memory_store : Option ℤ → InMemoryStore Any
  new_in_memory_store none = record { memories = []; memory_limit = pos 100 }
  new_in_memory_store (some limit) = record { memories = []; memory_limit = limit }

  unfoldable pub create_memory_entry :
      (Any → String) → (String → String) → ℕ → String → Memory Any → MemoryItem Any
  create_memory_entry print sha256 now user_id memory = record {
    memory_id = generate_memory_id print sha256 memory user_id;
    user_id = user_id;
    session_id = "";
    memory_type = untyped;
    memory = some memory;
    created_at = now;
    updated_at = now;
    expires_at = none;
    embedding = [];
    score = 0;
    confidence = 0;
  }

  -- `s.memories[userID]`, where a missing map is empty.
  unfoldable pub items_of : String → InMemoryStore Any → Map String (MemoryItem Any)
  items_of user_id s = elim (lookup user_id s.memories) [ none ↦ [] | some m ↦ m ]

  unfoldable pub put_items :
      String → Map String (MemoryItem Any) → InMemoryStore Any → InMemoryStore Any
  put_items user_id items s = record s { memories = insert user_id items s.memories }

  unfoldable pub add :
      (Any → String)
      → (String → String)
      → ℕ
      → String
      → Memory Any
      → InMemoryStore Any
      → Option Error × InMemoryStore Any
  add print sha256 now user_id memory s =
      let entry = create_memory_entry print sha256 now user_id memory in
      if user_id =? ""
      then (some user_id_required, s)
      else if at_limit (length (items_of user_id s)) s.memory_limit
      then (some memory_limit_exceeded, s)
      else (none, put_items user_id (insert entry.memory_id entry (items_of user_id s)) s)

  unfoldable pub get : String → String → InMemoryStore Any → Error ⊎ MemoryItem Any
  get user_id memory_id s =
      if user_id =? ""
      then inl user_id_required
      else if memory_id =? ""
      then inl memory_id_required
      else elim (lookup memory_id (items_of user_id s)) [
        | none ↦ inl not_found
        | some entry ↦ inr entry
      ]

  unfoldable pub update_entry : ℕ → Memory Any → MemoryItem Any → MemoryItem Any
  update_entry now memory entry = record entry { memory = some memory; updated_at = now }

  unfoldable pub update :
      ℕ → String → String → Memory Any → InMemoryStore Any → Option Error × InMemoryStore Any
  update now user_id memory_id memory s =
      if user_id =? ""
      then (some user_id_required, s)
      else if memory_id =? ""
      then (some memory_id_required, s)
      else elim (lookup memory_id (items_of user_id s)) [
        | none ↦ (some not_found, s)
        | some entry ↦ (
          none,
          put_items user_id (insert memory_id (update_entry now memory entry) (items_of user_id s))
              s,
        )
      ]

  unfoldable pub delete_item :
      String → String → InMemoryStore Any → Option Error × InMemoryStore Any
  delete_item user_id memory_id s =
      if user_id =? ""
      then (some user_id_required, s)
      else if memory_id =? ""
      then (some memory_id_required, s)
      else elim (lookup memory_id (items_of user_id s)) [
        | none ↦ (some not_found, s)
        | some entry ↦ (none, put_items user_id (delete memory_id (items_of user_id s)) s)
      ]

  unfoldable pub clear : String → InMemoryStore Any → Option Error × InMemoryStore Any
  clear user_id s =
      if user_id =? ""
      then (some user_id_required, s)
      else (none, record s { memories = delete user_id s.memories })

  -- The newest first.
  unfoldable pub newer : MemoryItem Any → MemoryItem Any → Bool
  newer a b =
      if a.updated_at == b.updated_at
      then ltb b.created_at a.created_at
      else ltb b.updated_at a.updated_at

  -- `order` is the order in which the loop over the map meets its entries.
  unfoldable pub list :
      (Map String (MemoryItem Any) → Map String (MemoryItem Any))
      → String
      → ℤ
      → InMemoryStore Any
      → Error ⊎ List (MemoryItem Any)
  list order user_id limit s =
      if user_id =? ""
      then inl invalid_id
      else (let items = items_of user_id s in
          inr (sort newer (take (list_limit limit (length items)) (map (λ e. e.1) (order items)))))
