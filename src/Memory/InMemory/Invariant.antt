-- ===== src/Memory/InMemory/Invariant.antt =====
-- What every operation of the store keeps: no user has more entries than the limit, and every entry
-- stands under its user and its id.
use xgc_agent.Prelude.{
  ℕ, ◌≡◌, ◌≤◌, ◌+◌, refl, sym, ap, ◌∙◌, subst, String, false, not, ◌&&◌, ◌||◌, some, [], arith,
  length, if◌then◌else◌, ◌=?◌, string_eq, string_iff, Bool-cases, Option-cases, inl, inr,
}
use xgc_agent.Prelude.Int.{ℤ, pos, negsuc, to_ℕ}
use xgc_agent.Prelude.Maps.{
  Map, Distinct, lookup, insert, delete, lookup-insert, lookup-delete, has-lookup, insert-Distinct,
  delete-Distinct, length-insert, length-delete-le,
}
use xgc_agent.Memory.Item.{Memory, MemoryItem}
use xgc_agent.Memory.InMemory.{
  InMemoryStore, at_limit, create_memory_entry, items_of, put_items, add, update, update_entry,
  delete_item, clear,
}
use xgc_agent.Memory.InMemory.Laws.{items_of-put_items, items_of-clear}

at_limit-room : (n : ℕ) (limit : ℤ) → at_limit n limit ≡ false → n + 1 ≤ to_ℕ limit
at_limit-room n (pos m) h = ground arith
at_limit-room n (negsuc m) h = cc

module _ {Any : Type 0} where
  -- The entries of one user.
  pub record IsProper (user : String) (limit : ℤ) (items : Map String (MemoryItem Any))
      : Type 0 where
    pub distinct : Distinct items
    pub bounded : length items ≤ to_ℕ limit
    pub keyed :
        (id : String) (entry : MemoryItem Any)
        → lookup id items ≡ some entry
        → (entry.memory_id ≡ id) × (entry.user_id ≡ user)

  unfoldable pub IsValid : InMemoryStore Any → Type 0
  IsValid s = (user : String) → IsProper user s.memory_limit (items_of user s)

  pub IsProper-nil : (user : String) (limit : ℤ) → IsProper user limit []
  unfolding lookup
  IsProper-nil user limit = record {
    distinct = tt;
    bounded = omega arith;
    keyed = λ id entry e. cc;
  }

  IsProper-insert :
      (user id : String) (limit : ℤ) (entry : MemoryItem Any) (items : Map String (MemoryItem Any))
      → entry.memory_id ≡ id
      → entry.user_id ≡ user
      → length (insert id entry items) ≤ to_ℕ limit
      → IsProper user limit items
      → IsProper user limit (insert id entry items)
  IsProper-insert user id limit entry items named owned room p = record {
    distinct = insert-Distinct id entry items p.distinct;
    bounded = room;
    keyed = λ other found e. ground (
      arith,
      e,
      lookup-insert id other entry items,
      p.keyed other found,
      string_iff id other,
      named,
      owned,
    );
  }

  IsProper-delete :
      (user id : String) (limit : ℤ) (items : Map String (MemoryItem Any))
      → IsProper user limit items
      → IsProper user limit (delete id items)
  IsProper-delete user id limit items p = record {
    distinct = delete-Distinct id items p.distinct;
    bounded = omega (arith, p.bounded, length-delete-le id items);
    keyed = λ other found e. ground (arith, e, lookup-delete id other items, p.keyed other found);
  }

  put_items-IsValid :
      (user : String) (items : Map String (MemoryItem Any)) (s : InMemoryStore Any)
      → IsProper user s.memory_limit items
      → IsValid s
      → IsValid (put_items user items s)
  unfolding IsValid put_items
  put_items-IsValid user items s p v other = elim (Bool-cases (user =? other)) [
    | inl same ↦
        subst (IsProper other s.memory_limit)
          (sym (stored ∙ ap (λ b. if b then items else items_of other s) same))
          (subst (λ u. IsProper u s.memory_limit items) ((string_iff user other).0 same) p)
    | inr apart ↦
        subst (IsProper other s.memory_limit)
          (sym (stored ∙ ap (λ b. if b then items else items_of other s) apart)) (v other)
  ]
    where
      stored :
          items_of other (put_items user items s)
          ≡ (if user =? other then items else items_of other s)
      stored = items_of-put_items user other items s

  pub add-IsValid :
      (print : Any → String) (sha256 : String → String) (now : ℕ) (user : String)
      (memory : Memory Any) (s : InMemoryStore Any)
      → IsValid s
      → IsValid (add print sha256 now user memory s).1
  unfolding add create_memory_entry IsValid
  add-IsValid print sha256 now user memory s v =
      elim (Bool-cases (user =? "" || at_limit (length (items_of user s)) s.memory_limit)) [
        | inl refused ↦ subst IsValid (ground (arith, refused)) v
        | inr taken ↦ subst IsValid (ground (arith, taken)) (stored (ground (arith, taken)))
      ]
    where
      entry : MemoryItem Any
      entry = create_memory_entry print sha256 now user memory

      stored :
          at_limit (length (items_of user s)) s.memory_limit ≡ false
          → IsValid (put_items user (insert entry.memory_id entry (items_of user s)) s)
      stored room =
          put_items-IsValid user (insert entry.memory_id entry (items_of user s)) s
            (IsProper-insert user entry.memory_id s.memory_limit entry (items_of user s) refl refl
              (ground (
                arith,
                length-insert entry.memory_id entry (items_of user s),
                at_limit-room (length (items_of user s)) s.memory_limit room,
                (v user).bounded,
              ))
              (v user))
            v

  pub update-IsValid :
      (now : ℕ) (user key : String) (memory : Memory Any) (s : InMemoryStore Any)
      → IsValid s
      → IsValid (update now user key memory s).1
  unfolding update update_entry IsValid
  update-IsValid now user key memory s v = elim (Bool-cases (user =? "" || key =? "")) [
    | inl refused ↦ subst IsValid (ground (arith, refused)) v
    | inr given ↦ elim (Option-cases (lookup key (items_of user s))) [
      | inl absent ↦ subst IsValid (ground (arith, given, absent)) v
      | inr (entry, there) ↦ subst IsValid (ground (arith, given, there)) (stored entry there)
    ]
  ]
    where
      stored :
          (entry : MemoryItem Any)
          → lookup key (items_of user s) ≡ some entry
          → IsValid
              (put_items user (insert key (update_entry now memory entry) (items_of user s)) s)
      stored entry there =
          put_items-IsValid user (insert key (update_entry now memory entry) (items_of user s)) s
            (IsProper-insert user key s.memory_limit (update_entry now memory entry)
              (items_of user s) ((v user).keyed key entry there).0
              ((v user).keyed key entry there).1
              (ground (
                arith,
                length-insert key (update_entry now memory entry) (items_of user s),
                has-lookup key (items_of user s),
                there,
                (v user).bounded,
              ))
              (v user))
            v

  pub delete_item-IsValid :
      (user key : String) (s : InMemoryStore Any) → IsValid s → IsValid (delete_item user key s).1
  unfolding delete_item IsValid
  delete_item-IsValid user key s v = elim (Bool-cases (user =? "" || key =? "")) [
    | inl refused ↦ subst IsValid (ground (arith, refused)) v
    | inr given ↦ elim (Option-cases (lookup key (items_of user s))) [
      | inl absent ↦ subst IsValid (ground (arith, given, absent)) v
      | inr (entry, there) ↦ subst IsValid (ground (arith, given, there)) (
          put_items-IsValid user (delete key (items_of user s)) s
            (IsProper-delete user key s.memory_limit (items_of user s) (v user)) v)
    ]
  ]

  limit-clear :
      (user : String) (s : InMemoryStore Any) → (clear user s).1.memory_limit ≡ s.memory_limit
  unfolding clear
  limit-clear user s = ground arith

  pub clear-IsValid : (user : String) (s : InMemoryStore Any) → IsValid s → IsValid (clear user s).1
  unfolding IsValid
  clear-IsValid user s v other = rw kept (
      subst (IsProper other s.memory_limit) (sym (items_of-clear user other s))
        (elim (Bool-cases (not (user =? "") && user =? other)) [
          | inl gone ↦ rw gone (IsProper-nil other s.memory_limit)
          | inr stays ↦ rw stays (v other)
        ]))
    where
      kept : (clear user s).1.memory_limit ≡ s.memory_limit
      kept = limit-clear user s
