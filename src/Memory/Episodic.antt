-- ===== src/Memory/Episodic.antt =====
-- `EpisodicMemoryImpl` of memory/type_/episodic.go, over any implementation of the interface
-- `StoreManager` of memory/store/base.go. A method returns its error or result and the store that
-- it leaves.
pub mod Range
use xgc_agent.Prelude.{
  ℕ, String, Bool, true, false, not, ◌&&◌, ◌||◌, Option, none, some, List, [], ◌∷◌, ◌++◌,
  if◌then◌else◌, ltb, leb, length, ◌⊎◌, inl, inr,
}
use xgc_agent.Prelude.Int.{ℤ, pos, is_nonpos, to_ℕ}
use xgc_agent.Memory.Item.{Memory, MemoryItem, ListOptions, episodic, Error, search_not_supported}
use xgc_agent.Memory.ShortTerm.{StoreManager}

-- The interface with its `List`, which has a user and a limit, and no limit at 0.
pub record ListingStore (Any Store : Type 0) : Type 0 where
  pub manager : StoreManager Any Store
  pub list : String → ℤ → Store → Error ⊎ List (MemoryItem Any)

-- The test of `ListByTimeRange`: not before `since` and not after `until`.
unfoldable pub in_range : {Any : Type 0} → ℕ → ℕ → MemoryItem Any → Bool
in_range since until it = not (ltb it.created_at since || ltb until it.created_at)

-- The loop of `ListByTimeRange`, with what it has found so far.
unfoldable pub range_loop :
    {Any : Type 0}
    → ℤ
    → ℕ
    → ℕ
    → List (MemoryItem Any)
    → List (MemoryItem Any)
    → List (MemoryItem Any)
range_loop limit since until [] out = out
range_loop limit since until (it ∷ items) out =
    let skipped = range_loop limit since until items out in
    let rest = range_loop limit since until items (out ++ it ∷ []) in
    if not (in_range since until it)
    then skipped
    else if not (is_nonpos limit) && leb (to_ℕ limit) (length (out ++ it ∷ []))
    then out ++ it ∷ []
    else rest

unfoldable pub in_time :
    {Any : Type 0} → ℕ → ℕ → ℤ → Error ⊎ List (MemoryItem Any) → Error ⊎ List (MemoryItem Any)
in_time since until limit (inl e) = inl e
in_time since until limit (inr items) = inr (range_loop limit since until items [])

module _ {Any Store : Type 0} (store : ListingStore Any Store) (user_id : String) where
  -- The items go to the store as episodic ones, up to the first that it refuses.
  unfoldable pub add : List (MemoryItem Any) → Store → Option Error × Store
  add [] s = (none, s)
  add (it ∷ items) s =
      let added = store.manager.add (record it { memory_type = episodic }) s in
      let rest = add items added.1 in elim added.0 [ some e ↦ (some e, added.1) | none ↦ rest ]

  unfoldable pub add_episode : List (MemoryItem Any) → Store → Option Error × Store
  add_episode items s = add items s

  unfoldable pub update : List (MemoryItem Any) → Store → Option Error × Store
  update [] s = (none, s)
  update (it ∷ items) s = elim it.memory [
    | none ↦ update items s
    | some memory ↦
        let updated = store.manager.update user_id it.memory_id memory s in
        elim updated.0 [ some e ↦ (some e, updated.1) | none ↦ update items updated.1 ]
  ]

  unfoldable pub get : String → Store → Error ⊎ MemoryItem Any
  get id s = store.manager.get user_id id s

  unfoldable pub list : ListOptions → Store → Error ⊎ List (MemoryItem Any)
  list opts s = store.list user_id opts.limit s

  unfoldable pub list_by_time_range : ℕ → ℕ → ℤ → Store → Error ⊎ List (MemoryItem Any)
  list_by_time_range since until limit s = in_time since until limit (store.list user_id (pos 0) s)

  unfoldable pub delete : String → Store → Option Error × Store
  delete id s = store.manager.delete user_id id s

  unfoldable pub clear : Store → Option Error × Store
  clear s = store.manager.clear user_id s

  unfoldable pub search : String → ℤ → Store → Error ⊎ List (MemoryItem Any)
  search query limit s = inl search_not_supported
