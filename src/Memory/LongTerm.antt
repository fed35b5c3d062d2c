-- ===== src/Memory/LongTerm.antt =====
-- `LongTermMemoryImpl` of memory/type_/long_term.go: an episodic memory and a semantic one, each
-- any implementation of the interface `BaseMemory`. A method returns its error or result and what
-- it leaves.
pub mod Routes
use xgc_agent.Prelude.{
  ℕ, String, Bool, true, false, Option, none, some, List, [], ◌∷◌, ◌++◌, ◌⊎◌, inl, inr,
}
use xgc_agent.Prelude.Int.{ℤ}
use xgc_agent.Memory.Item.{MemoryItem, ListOptions, untyped, short_term, episodic, semantic, Error}

-- The interface, over the state of an implementation.
pub record BaseMemory (Any S : Type 0) : Type 0 where
  pub add : List (MemoryItem Any) → S → Option Error × S
  pub update : List (MemoryItem Any) → S → Option Error × S
  pub get : String → S → Error ⊎ MemoryItem Any
  pub list : ListOptions → S → Error ⊎ List (MemoryItem Any)
  pub delete : String → S → Option Error × S
  pub clear : S → Option Error × S
  pub search : String → ℤ → S → Error ⊎ List (MemoryItem Any)

-- The case of the switch; all other types are the semantic memory's.
unfoldable pub is_episodic : {Any : Type 0} → MemoryItem Any → Bool
is_episodic it = elim it.memory_type [
  | untyped ↦ false
  | short_term ↦ false
  | episodic ↦ true
  | semantic ↦ false
]

-- A list, or nothing where there was an error.
unfoldable pub or_nothing : {Any : Type 0} → Error ⊎ List (MemoryItem Any) → List (MemoryItem Any)
or_nothing (inl e) = []
or_nothing (inr items) = items

-- `if err1 != nil && err2 != nil { return err1 }`
unfoldable pub both_errors : Option Error → Option Error → Option Error
both_errors none e = none
both_errors (some e) none = none
both_errors (some e) (some f) = some e

-- The loop that `Add` and `Update` have, up to the first error.
unfoldable pub each :
    {Any E S : Type 0}
    → (MemoryItem Any → E × S → Option Error × E × S)
    → List (MemoryItem Any)
    → E × S
    → Option Error × E × S
each f [] m = (none, m.0, m.1)
each f (it ∷ items) m =
    let r = f it m in let rest = each f items (r.1, r.2) in elim r.0 [ some e ↦ r | none ↦ rest ]

module _ {Any E S : Type 0} (epi : BaseMemory Any E) (sem : BaseMemory Any S) where
  unfoldable pub add_one : MemoryItem Any → E × S → Option Error × E × S
  add_one it m = elim (is_episodic it) [
    | true ↦ let r = epi.add (it ∷ []) m.0 in (r.0, r.1, m.1)
    | false ↦ let r = sem.add (it ∷ []) m.1 in (r.0, m.0, r.1)
  ]

  unfoldable pub update_one : MemoryItem Any → E × S → Option Error × E × S
  update_one it m = elim (is_episodic it) [
    | true ↦ let r = epi.update (it ∷ []) m.0 in (r.0, r.1, m.1)
    | false ↦ let r = sem.update (it ∷ []) m.1 in (r.0, m.0, r.1)
  ]

  unfoldable pub add : List (MemoryItem Any) → E × S → Option Error × E × S
  add items m = each add_one items m

  unfoldable pub update : List (MemoryItem Any) → E × S → Option Error × E × S
  update items m = each update_one items m

  unfoldable pub get : String → E × S → Error ⊎ MemoryItem Any
  get id m = elim (sem.get id m.1) [ inr item ↦ inr item | inl e ↦ epi.get id m.0 ]

  unfoldable pub list : ListOptions → E × S → List (MemoryItem Any)
  list opts m = or_nothing (sem.list opts m.1) ++ or_nothing (epi.list opts m.0)

  unfoldable pub delete : String → E × S → Option Error × E × S
  delete id m =
      let a = sem.delete id m.1 in let b = epi.delete id m.0 in (both_errors a.0 b.0, b.1, a.1)

  unfoldable pub clear : E × S → Option Error × E × S
  clear m =
      let a = sem.clear m.1 in
      let b = epi.clear m.0 in elim a.0 [ some e ↦ (some e, m.0, a.1) | none ↦ (b.0, b.1, a.1) ]

  unfoldable pub search : String → ℤ → E × S → Error ⊎ List (MemoryItem Any)
  search query limit m = sem.search query limit m.1
