-- ===== src/Memory/InMemory/Runs.antt =====
-- The store after any sequence of calls.
use xgc_agent.Prelude.{ℕ, String, Option, none, some, List, [], ◌∷◌}
use xgc_agent.Prelude.Int.{ℤ, pos}
use xgc_agent.Prelude.Maps.{lookup}
use xgc_agent.Memory.Item.{Memory}
use xgc_agent.Memory.InMemory.{
  InMemoryStore, new_in_memory_store, items_of, add, update, delete_item, clear,
}
use xgc_agent.Memory.InMemory.Invariant.{
  IsValid, IsProper-nil, add-IsValid, update-IsValid, delete_item-IsValid, clear-IsValid,
}

-- A call that may change the store.
pub data Call (Any : Type 0) : Type 0 where
  add_call : (now : ℕ) (user : String) (memory : Memory Any) → Call Any
  update_call : (now : ℕ) (user key : String) (memory : Memory Any) → Call Any
  delete_call : (user key : String) → Call Any
  clear_call : (user : String) → Call Any

module _ {Any : Type 0} (print : Any → String) (sha256 : String → String) where
  abbrev pub perform : Call Any → InMemoryStore Any → InMemoryStore Any
  perform (add_call now user memory) s = (add print sha256 now user memory s).1
  perform (update_call now user key memory) s = (update now user key memory s).1
  perform (delete_call user key) s = (delete_item user key s).1
  perform (clear_call user) s = (clear user s).1

  abbrev pub run : List (Call Any) → InMemoryStore Any → InMemoryStore Any
  run [] s = s
  run (call ∷ calls) s = run calls (perform call s)

  perform-IsValid : (call : Call Any) (s : InMemoryStore Any) → IsValid s → IsValid (perform call s)
  perform-IsValid (add_call now user memory) s v = add-IsValid print sha256 now user memory s v
  perform-IsValid (update_call now user key memory) s v = update-IsValid now user key memory s v
  perform-IsValid (delete_call user key) s v = delete_item-IsValid user key s v
  perform-IsValid (clear_call user) s v = clear-IsValid user s v

  run-IsValid :
      (calls : List (Call Any)) (s : InMemoryStore Any) → IsValid s → IsValid (run calls s)
  run-IsValid [] s v = v
  run-IsValid (call ∷ calls) s v = run-IsValid calls (perform call s) (perform-IsValid call s v)

  -- After any calls on a new store, no user has more entries than the limit (none, if it is
  -- negative), no id twice, and every entry stands under its user and its id.
  pub run-new_in_memory_store :
      (limit : Option ℤ) (calls : List (Call Any)) → IsValid (run calls (new_in_memory_store limit))
  unfolding IsValid new_in_memory_store items_of lookup
  run-new_in_memory_store none calls =
      run-IsValid calls (new_in_memory_store none) (λ user. IsProper-nil user (pos 100))
  run-new_in_memory_store (some limit) calls =
      run-IsValid calls (new_in_memory_store (some limit)) (λ user. IsProper-nil user limit)
