-- ===== src/Memory/LongTerm/Routes.antt =====
-- Where the items of an `Add` go.
use xgc_agent.Prelude.{
  ◌≡◌, refl, sym, ap, subst, ◌∙◌, not, Option, none, some, List, [], ◌∷◌, keep, Bool-cases,
  Option-cases, inl, inr,
}
use xgc_agent.Memory.Item.{MemoryItem, Error}
use xgc_agent.Memory.LongTerm.{BaseMemory, is_episodic, each, add_one, add}

-- The items one by one, and the state that is left.
abbrev pub add_each : {Any S : Type 0} → BaseMemory Any S → List (MemoryItem Any) → S → S
add_each memory [] s = s
add_each memory (it ∷ items) s = add_each memory items (memory.add (it ∷ []) s).1

none-some : (e : Error) → none ≡ some e → ⊥
none-some e h = cc

module _ {Any E S : Type 0} (epi : BaseMemory Any E) (sem : BaseMemory Any S) where
  abbrev Routed : List (MemoryItem Any) → E × S → Option Error × E × S → Type 0
  Routed items m r =
      (r.1 ≡ add_each epi (keep is_episodic items) m.0)
      × (r.2 ≡ add_each sem (keep (λ it. not (is_episodic it)) items) m.1)

  each-first :
      (f : MemoryItem Any → E × S → Option Error × E × S) (it : MemoryItem Any)
      (items : List (MemoryItem Any)) (m : E × S)
      → (each f (it ∷ items) m).0 ≡ none
      → (f it m).0 ≡ none
  unfolding each
  each-first f it items m h = elim (Option-cases (f it m).0) [
    | inl n ↦ n
    | inr (e, n) ↦ absurd (
        none-some e (
          sym (
            subst
              (λ o.
                (elim o as (λ x. Option Error × E × S) [
                  | some e ↦ f it m
                  | none ↦ each f items ((f it m).1, (f it m).2)
                ]).0
                ≡ none)
              n h)
          ∙ n))
  ]

  each-next :
      (f : MemoryItem Any → E × S → Option Error × E × S) (it : MemoryItem Any)
      (items : List (MemoryItem Any)) (m : E × S)
      → (f it m).0 ≡ none
      → each f (it ∷ items) m ≡ each f items ((f it m).1, (f it m).2)
  unfolding each
  each-next f it items m n = rw (each, n) refl

  add_one-Routed :
      (it : MemoryItem Any) (items : List (MemoryItem Any)) (m : E × S)
      → (add_each epi (keep is_episodic (it ∷ items)) m.0
          ≡ add_each epi (keep is_episodic items) (add_one epi sem it m).1)
        × (add_each sem (keep (λ it. not (is_episodic it)) (it ∷ items)) m.1
            ≡ add_each sem (keep (λ it. not (is_episodic it)) items) (add_one epi sem it m).2)
  unfolding add_one
  add_one-Routed it items m = elim (Bool-cases (is_episodic it)) [
    | inl e ↦ (rw (add_one, e) refl, rw (add_one, e) refl)
    | inr e ↦ (rw (add_one, e) refl, rw (add_one, e) refl)
  ]

  each-Routed :
      (items : List (MemoryItem Any)) (m : E × S)
      → (each (add_one epi sem) items m).0 ≡ none
      → Routed items m (each (add_one epi sem) items m)
  unfolding each
  each-Routed [] m h = (refl, refl)
  each-Routed (it ∷ items) m h =
      let r = add_one epi sem it m in
      let n = each-first (add_one epi sem) it items m h in
      let rest =
        each-Routed items (r.1, r.2)
          (sym (ap (λ (t : Option Error × E × S). t.0) (each-next (add_one epi sem) it items m n))
            ∙ h) in
      let step = add_one-Routed it items m in
      (
        ap (λ (t : Option Error × E × S). t.1) (each-next (add_one epi sem) it items m n)
            ∙ rest.0
            ∙ sym step.0,
        ap (λ (t : Option Error × E × S). t.2) (each-next (add_one epi sem) it items m n)
            ∙ rest.1
            ∙ sym step.1,
      )

  -- After an Add without error each of the two memories is as if it had been given its own items
  -- one by one, in their order: the episodic memory those of the episodic type, the semantic one
  -- all others.
  pub add-Routed :
      (items : List (MemoryItem Any)) (m : E × S)
      → (add epi sem items m).0 ≡ none
      → ((add epi sem items m).1 ≡ add_each epi (keep is_episodic items) m.0)
        × ((add epi sem items m).2 ≡ add_each sem (keep (λ it. not (is_episodic it)) items) m.1)
  unfolding add
  add-Routed items m h = each-Routed items m h
