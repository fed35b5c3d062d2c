-- ===== src/Memory/ShortTerm.antt =====
-- `ShortTermMemory` of memory/type_/short_term.go, over any implementation of the interface
-- `StoreManager` of memory/store/base.go. `ctx` is the error of the context, if it is done.
pub mod Calls
pub mod Window
pub mod Added
use xgc_agent.Prelude.{
  ℕ, zero, suc, ◌+◌, ◌-◌, String, Bool, true, false, not, ◌&&◌, Option, none, some, List, [], ◌∷◌,
  ◌++◌, if◌then◌else◌, ltb, ◌==◌, length, drop, keep, ◌=?◌, string_eq, ◌⊎◌, inl, inr, is_some,
}
use xgc_agent.Prelude.Int.{ℤ, pos, is_nonpos, to_ℕ}
use xgc_agent.Prelude.Maps.{insert}
use xgc_agent.Memory.Item.{
  Memory, MemoryItem, ListOptions, short_term, Error, invalid_id, invalid_session_id,
  store_manager_nil, is_expired, generate_memory_id,
}
use xgc_agent.Memory.IdRing.{
  IdRing, new_id_ring, contains, push_back, pop_front, values, reset, remove,
}

-- `Add` fails with an error of the store, or panics.
pub data Failure : Type 0 where
  store_error : Error → Failure
  panics : Failure

pub record StoreManager (Any Store : Type 0) : Type 0 where
  pub add : MemoryItem Any → Store → Option Error × Store
  pub get : String → String → Store → Error ⊎ MemoryItem Any
  pub update : String → String → Memory Any → Store → Option Error × Store
  pub delete : String → String → Store → Option Error × Store
  pub clear : String → Store → Option Error × Store

-- What the package calls: the printing of values, the hash, and a text as a value.
pub record Values (Any : Type 0) : Type 0 where
  pub print : Any → String
  pub sha256 : String → String
  pub of_string : String → Any

pub record ShortTermMemory (Store : Type 0) : Type 0 where
  pub user_id : String
  pub session_id : String
  pub ttl : ℤ
  pub capacity : ℤ
  pub store : Store
  pub order : IdRing

unfoldable pub new_short_term_memory :
    {Store : Type 0} → String → String → ℤ → ℤ → Option Store → Error ⊎ ShortTermMemory Store
new_short_term_memory user_id session_id ttl capacity none =
    if session_id =? "" then inl invalid_session_id else inl store_manager_nil
new_short_term_memory user_id session_id ttl capacity (some store) =
    if session_id =? ""
    then inl invalid_session_id
    else inr (record {
      user_id = user_id;
      session_id = session_id;
      ttl = ttl;
      capacity = capacity;
      store = store;
      order = new_id_ring capacity;
    })

unfoldable pub expiry : ℕ → ℤ → Option ℕ → Option ℕ
expiry now ttl (some t) = some t
expiry now ttl none = if is_nonpos ttl then none else some (now + to_ℕ ttl)

module _ {Any : Type 0} where
  -- The id of the item; there is none to generate without a memory, where the code panics.
  unfoldable pub item_id : Values Any → MemoryItem Any → Option String
  item_id env item =
      if item.memory_id =? ""
      then (elim item.memory [
        | none ↦ none
        | some memory ↦ some (generate_memory_id env.print env.sha256 memory item.user_id)
      ])
      else some item.memory_id

  unfoldable pub with_session : Values Any → String → Memory Any → Memory Any
  with_session env session_id memory = record memory {
    metadata = insert "session_id" (env.of_string session_id) memory.metadata;
  }

  -- The item as it goes to the store.
  unfoldable pub prepare : Values Any → ℕ → String → ℤ → String → MemoryItem Any → MemoryItem Any
  prepare env now session_id ttl id item = record item {
    memory_id = id;
    memory_type = short_term;
    created_at = if item.created_at == 0 then now else item.created_at;
    updated_at = now;
    expires_at = expiry now ttl item.expires_at;
    memory = elim item.memory [
      | none ↦ none
      | some memory ↦ some (with_session env session_id memory)
    ];
  }

  -- The filters of `List`.
  unfoldable pub is_wanted : ListOptions → ℕ → MemoryItem Any → Bool
  is_wanted opts now item =
      not (not opts.include_expired && is_expired now item)
      && not (elim opts.since [ none ↦ false | some t ↦ ltb item.created_at t ])
      && not (elim opts.until [ none ↦ false | some t ↦ ltb t item.created_at ])

  -- The newest items up to the limit, if it is positive.
  unfoldable pub last : ℤ → List (MemoryItem Any) → List (MemoryItem Any)
  last limit out =
      if not (is_nonpos limit) && ltb (to_ℕ limit) (length out)
      then drop (length out - to_ℕ limit) out
      else out
