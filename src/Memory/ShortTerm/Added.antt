-- ===== src/Memory/ShortTerm/Added.antt =====
-- What `Add` leaves in order, once it succeeds.
use xgc_agent.Prelude.{
  ℕ, ◌≡◌, ◌≤◌, refl, sym, ap, ap₂, ◌∙◌, subst, String, false, not, ◌||◌, none, some, List, [], ◌∷◌,
  ◌++◌, arith, if◌then◌else◌, length, drop, length-drop, ◌-◌, keep, contains as listed, ◌=?◌,
  string_eq, inl, inr, ◌⊎◌, Bool-cases, Option-cases,
}
use xgc_agent.Prelude.Int.{is_nonpos, to_ℕ}
use xgc_agent.Prelude.Maps.{has}
use xgc_agent.Memory.Item.{MemoryItem}
use xgc_agent.Memory.IdRing.{IdRing, contains, push_back}
use xgc_agent.Memory.IdRing.Slots.{contents, IsValid}
use xgc_agent.Memory.IdRing.Refine.{push_back_refines}
use xgc_agent.Memory.ShortTerm.{ShortTermMemory, StoreManager, Values, item_id, prepare}
use xgc_agent.Memory.ShortTerm.Calls.{is_stale, cleanup_expired, add_items, add}
use xgc_agent.Memory.ShortTerm.Window.{window, length-contents, trim_lem, cleanup_expired_lem}

-- A queue behind which an id is put, unless it is empty or there.
abbrev pub queued : String → List String → List String
queued id q = if id =? "" || listed q id then q else q ++ id ∷ []

push_lem :
    (id : String) (r : IdRing)
    → IsValid r
    → IsValid (if contains r id then r else push_back id r)
      × (contents (if contains r id then r else push_back id r) ≡ queued id (contents r))
unfolding contains
push_lem id r v = elim (Bool-cases (has id r.index)) [
  | inl there ↦ rw there (v, ground (arith, there, v.indexed id))
  | inr fresh ↦ rw fresh (push_back_refines id r v)
]

module _ {Any : Type 0} where
  -- The ids of the items put behind a queue, one by one.
  unfoldable pub queued_all : Values Any → List (MemoryItem Any) → List String → List String
  queued_all env [] q = q
  queued_all env (item ∷ items) q = elim (item_id env item) [
    | none ↦ q
    | some id ↦ queued_all env items (queued id q)
  ]

module _ {Any Store : Type 0} (manager : StoreManager Any Store) (env : Values Any) (now : ℕ) where
  added : String → MemoryItem Any → ShortTermMemory Store → ShortTermMemory Store
  added id item m = record m {
    store = (manager.add (prepare env now m.session_id m.ttl id item) m.store).1;
    order = if contains m.order id then m.order else push_back id m.order;
  }

  -- The loop goes on exactly if the item has an id and the store takes it.
  add_items-cases :
      (item : MemoryItem Any) (items : List (MemoryItem Any)) (m : ShortTermMemory Store)
      → ((add_items manager env now (item ∷ items) m).0 ≡ none → ⊥)
        ⊎ ((id : String) × (item_id env item ≡ some id)
            × (add_items manager env now (item ∷ items) m
                ≡ add_items manager env now items (added id item m)))
  unfolding add_items added
  add_items-cases item items m = elim (Option-cases (item_id env item)) [
    | inl e ↦ inl (rw (add_items, e) (λ h. cc))
    | inr (id, e) ↦
        elim (Option-cases (manager.add (prepare env now m.session_id m.ttl id item) m.store).0) [
          | inl stored ↦ inr (id, e, rw (add_items, e, stored) refl)
          | inr (error, f) ↦ inl (rw (add_items, e, f) (λ h. cc))
        ]
  ]

  queued_all-cons :
      (item : MemoryItem Any) (items : List (MemoryItem Any)) (id : String) (q : List String)
      → item_id env item ≡ some id
      → queued_all env (item ∷ items) q ≡ queued_all env items (queued id q)
  unfolding queued_all
  queued_all-cons item items id q e = rw (queued_all, e) refl

  order-added :
      (id : String) (item : MemoryItem Any) (m : ShortTermMemory Store)
      → IsValid m.order
      → IsValid (added id item m).order
        × (contents (added id item m).order ≡ queued id (contents m.order))
        × ((added id item m).capacity ≡ m.capacity)
  unfolding added
  order-added id item m v = let p = push_lem id m.order v in (p.0, p.1, refl)

  IsQueued : List (MemoryItem Any) → ShortTermMemory Store → ShortTermMemory Store → Type 0
  IsQueued items m m' =
      IsValid m'.order
      × (contents m'.order ≡ queued_all env items (contents m.order))
      × (m'.capacity ≡ m.capacity)

  add_items_lem :
      (items : List (MemoryItem Any)) (m : ShortTermMemory Store)
      → IsValid m.order
      → (add_items manager env now items m).0 ≡ none
      → IsQueued items m (add_items manager env now items m).1
  unfolding IsQueued
  add_items_lem [] m v h = unfold add_items queued_all in (v, refl, refl)
  add_items_lem (item ∷ items) m v h = elim (add_items-cases item items m) [
    | inl stopped ↦ absurd (stopped h)
    | inr (id, e, step) ↦
        let p = order-added id item m v in
        let rest = add_items_lem items (added id item m) p.0 (ap (λ r. r.0) (sym step) ∙ h) in
        subst (λ r. IsQueued (item ∷ items) m r.1) (sym step)
          (
            rest.0,
            rest.1
                ∙ ap (queued_all env items) p.1
                ∙ sym (queued_all-cons item items id (contents m.order) e),
            rest.2 ∙ p.2,
          )
  ]

  -- A successful `Add` on a memory with a valid ring leaves a valid ring. It forgets the ids whose
  -- item is expired or not in the store, puts the new ids behind the others in the order of the
  -- items, each once, and of all these keeps the last ones, as many as the capacity if it is
  -- positive.
  pub order-add :
      (items : List (MemoryItem Any)) (m : ShortTermMemory Store)
      → IsValid m.order
      → (add manager env now items m).0 ≡ none
      → IsValid (add manager env now items m).1.order
        × (contents (add manager env now items m).1.order
            ≡ window m.capacity (
                queued_all env items
                  (keep (λ id. not (is_stale manager now m id)) (contents m.order))))
  unfolding add IsQueued
  order-add items m v h =
      let c = cleanup_expired_lem manager now m v in
      let a = add_items_lem items (cleanup_expired manager now m) c.0 h in
      let t =
        trim_lem manager (add_items manager env now items (cleanup_expired manager now m)).1 a.0 in
      rw (add, h) (t.0, t.1 ∙ ap₂ window (a.2 ∙ c.2) (a.1 ∙ ap (queued_all env items) c.1))

  -- After a successful `Add` on a memory with a valid ring and a positive capacity, no more ids are
  -- kept than the capacity.
  pub size-add :
      (items : List (MemoryItem Any)) (m : ShortTermMemory Store)
      → IsValid m.order
      → is_nonpos m.capacity ≡ false
      → (add manager env now items m).0 ≡ none
      → (add manager env now items m).1.order.size ≤ to_ℕ m.capacity
  size-add items m v p h =
      let o = order-add items m v h in
      let q =
        queued_all env items (keep (λ id. not (is_stale manager now m id)) (contents m.order)) in
      omega (
        arith,
        length-contents (add manager env now items m).1.order,
        ap length (o.1 ∙ ap (λ b. if b then q else drop (length q - to_ℕ m.capacity) q) p),
        length-drop (length q - to_ℕ m.capacity) q,
      )
