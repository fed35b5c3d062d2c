-- ===== src/Memory/ShortTerm/Calls.antt =====
-- The methods of `ShortTermMemory`, over a store manager. A method returns what it returns and the
-- memory that it leaves.
use xgc_agent.Prelude.{
  ℕ, zero, suc, String, Bool, true, false, Option, none, some, List, [], ◌∷◌, if◌then◌else◌, ltb,
  keep, ◌=?◌, string_eq, ◌⊎◌, inl, inr, is_some,
}
use xgc_agent.Prelude.Int.{is_nonpos, to_ℕ}
use xgc_agent.Memory.Item.{MemoryItem, ListOptions, Error, invalid_id, is_expired}
use xgc_agent.Memory.IdRing.{contains, push_back, pop_front, values, reset, remove}
use xgc_agent.Memory.ShortTerm.{
  ShortTermMemory, StoreManager, Values, Failure, store_error, panics, item_id, prepare, is_wanted,
  last,
}

module _ {Any Store : Type 0} (manager : StoreManager Any Store) where
  -- `store.Get` failed or the item is expired.
  unfoldable pub is_stale : ℕ → ShortTermMemory Store → String → Bool
  is_stale now m id = elim (manager.get m.user_id id m.store) [
    | inl e ↦ true
    | inr item ↦ is_expired now item
  ]

  -- `_ = m.store.Delete(…)` and `m.order.Remove(id)` for each id.
  unfoldable pub forget : List String → ShortTermMemory Store → ShortTermMemory Store
  forget [] m = m
  forget (id ∷ ids) m =
      forget ids (record m {
        store = (manager.delete m.user_id id m.store).1;
        order = (remove id m.order).1;
      })

  unfoldable pub cleanup_expired : ℕ → ShortTermMemory Store → ShortTermMemory Store
  cleanup_expired now m = forget (keep (is_stale now m) (values m.order)) m

  -- The loop of `trimLocked`, on fuel; `trim` gives it one round for each id.
  unfoldable pub trim_loop : ℕ → ℕ → ShortTermMemory Store → ShortTermMemory Store
  trim_loop zero capacity m = m
  trim_loop (suc fuel) capacity m = elim (ltb capacity m.order.size) [
    | false ↦ m
    | true ↦ elim (pop_front m.order).0 [
      | none ↦ record m { order = (pop_front m.order).1 }
      | some id ↦ trim_loop fuel capacity (record m {
        store = (manager.delete m.user_id id m.store).1;
        order = (pop_front m.order).1;
      })
    ]
  ]

  unfoldable pub trim : ShortTermMemory Store → ShortTermMemory Store
  trim m = if is_nonpos m.capacity then m else trim_loop m.order.size (to_ℕ m.capacity) m

  -- The loop of `Add` over the items.
  unfoldable pub add_items :
      Values Any
      → ℕ
      → List (MemoryItem Any)
      → ShortTermMemory Store
      → Option Failure × ShortTermMemory Store
  add_items env now [] m = (none, m)
  add_items env now (item ∷ items) m = elim (item_id env item) [
    | none ↦ (some panics, m)
    | some id ↦
        let m' = record m {
          store = (manager.add (prepare env now m.session_id m.ttl id item) m.store).1;
          order = if contains m.order id then m.order else push_back id m.order;
        } in
        elim (manager.add (prepare env now m.session_id m.ttl id item) m.store).0 [
          | none ↦ add_items env now items m'
          | some e ↦ (some (store_error e), m')
        ]
  ]

  unfoldable pub add :
      Values Any
      → ℕ
      → List (MemoryItem Any)
      → ShortTermMemory Store
      → Option Failure × ShortTermMemory Store
  add env now items m =
      let (failure, m') = add_items env now items (cleanup_expired now m) in
      (failure, if is_some failure then m' else trim m')

  unfoldable pub delete_item :
      Option Error → String → ShortTermMemory Store → Option Error × ShortTermMemory Store
  delete_item (some e) id m = (some e, m)
  delete_item none id m =
      if id =? ""
      then (some invalid_id, m)
      else (let (e, store) = manager.delete m.user_id id m.store in
          (
            e,
            record m {
              store = store;
              order = if is_some e then m.order else (remove id m.order).1;
            },
          ))

  unfoldable pub clear : Option Error → ShortTermMemory Store → Option Error × ShortTermMemory Store
  clear (some e) m = (some e, m)
  clear none m =
      let (e, store) = manager.clear m.user_id m.store in
      (e, record m { store = store; order = if is_some e then m.order else reset m.order })

  unfoldable pub get :
      Option Error
      → ℕ
      → String
      → ShortTermMemory Store
      → (Error ⊎ MemoryItem Any) × ShortTermMemory Store
  get (some e) now id m = (inl e, m)
  get none now id m =
      if id =? ""
      then (inl invalid_id, m)
      else (let m' = cleanup_expired now m in (manager.get m'.user_id id m'.store, m'))

  unfoldable pub update_items :
      List (MemoryItem Any) → ShortTermMemory Store → Option Error × ShortTermMemory Store
  update_items [] m = (none, m)
  update_items (item ∷ items) m = elim item.memory [
    | none ↦ update_items items m
    | some memory ↦
        let (e, store) = manager.update m.user_id item.memory_id memory m.store in
        elim e [
          | none ↦ update_items items (record m { store = store })
          | some error ↦ (some error, record m { store = store })
        ]
  ]

  unfoldable pub update :
      Option Error
      → List (MemoryItem Any)
      → ShortTermMemory Store
      → Option Error × ShortTermMemory Store
  update (some e) items m = (some e, m)
  update none items m = update_items items m

  -- `store.Get` for each id, without the items that fail.
  unfoldable pub found : ShortTermMemory Store → List String → List (MemoryItem Any)
  found m [] = []
  found m (id ∷ ids) = elim (manager.get m.user_id id m.store) [
    | inl e ↦ found m ids
    | inr item ↦ item ∷ found m ids
  ]

  unfoldable pub list :
      Option Error
      → ℕ
      → ListOptions
      → ShortTermMemory Store
      → (Error ⊎ List (MemoryItem Any)) × ShortTermMemory Store
  list (some e) now opts m = (inl e, m)
  list none now opts m =
      let m' = cleanup_expired now m in
      (inr (last opts.limit (keep (is_wanted opts now) (found m' (values m'.order)))), m')
