-- ===== src/Memory/IdRing/Refine.antt =====
-- Each method of a valid ring does what the queue of its contents does, and leaves a valid ring.
use native.Mathlib.Nat.{mod-lt, mod-eq_of_lt, add-mod_right}
use native.Mathlib.Numerals.{add-one}
use xgc_agent.Prelude.{
  ℕ, zero, suc, ◌+◌, ◌%◌, ◌≤◌, ◌<◌, ◌≡◌, refl, sym, ap, subst, ◌∙◌, String, false, ◌||◌, ◌==◌,
  Option, none, some, List, [], ◌∷◌, ◌++◌, arith, if◌then◌else◌, length, get_or, set, length-set,
  contains as listed, ◌=?◌, string_eq, string_iff, Bool-cases, inl, inr,
}
use xgc_agent.Prelude.Maps.{has, delete, has-insert, has-delete}
use xgc_agent.Memory.IdQueue.{apply, pop, item}
use xgc_agent.Memory.IdRing.{IdRing, append_id, push_back, pop_front, ensure_capacity}
use xgc_agent.Memory.IdRing.Slots.{
  slots, slots-set_end, slots-set_outside, slots-mod, contents, IsValid, IsDistinct,
}
use xgc_agent.Memory.IdRing.Grow.{ensure_capacity_lem}

pub listed-append :
    (xs : List String) (x k : String) → listed (xs ++ x ∷ []) k ≡ ((x =? k) || listed xs k)
listed-append [] x k = ground arith
listed-append (y ∷ xs) x k = ground (arith, listed-append xs x k)

IsDistinct-append :
    (xs : List String) (x : String)
    → listed xs x ≡ false
    → IsDistinct xs
    → IsDistinct (xs ++ x ∷ [])
IsDistinct-append [] x h d = (refl, tt)
IsDistinct-append (y ∷ xs) x h d =
    ground (arith, IsDistinct-append xs x, listed-append xs x y, string_iff y x, string_iff x y)

module _ (id : String) (r : IdRing) (v : IsValid r) (room : r.size < length r.buf)
    (new : listed (contents r) id ≡ false) (proper : (id =? "") ≡ false) where
  contents-append_id : contents (append_id id r) ≡ contents r ++ id ∷ []
  unfolding append_id
  contents-append_id = rw add-one (slots-set_end r.buf r.head r.size id room)

  indexed-append_id : (k : String) → has k (append_id id r).index ≡ listed (contents r ++ id ∷ []) k
  unfolding append_id
  indexed-append_id k = ground (
    arith,
    has-insert id k ((r.head + r.size) % length r.buf) r.index,
    listed-append (contents r) id k,
    v.indexed k,
  )

  append_id-IsValid : IsValid (append_id id r)
  unfolding append_id
  append_id-IsValid = record {
    head_in = rw length-set v.head_in;
    size_in = rw length-set (omega arith);
    nonempty = rw contents-append_id (ground (arith, v.nonempty, listed-append (contents r) id ""));
    distinct = rw contents-append_id (IsDistinct-append (contents r) id new v.distinct);
    indexed = λ k. rw contents-append_id (indexed-append_id k);
  }

push_fresh :
    (id : String) (r : IdRing)
    → IsValid r
    → (id =? "" || listed (contents r) id) ≡ false
    → let u = append_id id (ensure_capacity (r.size + 1) r) in
      IsValid u × (contents u ≡ contents r ++ id ∷ [])
push_fresh id r v h = (
  append_id-IsValid id u grown.0 room new proper,
  contents-append_id id u grown.0 room new proper ∙ ap (λ q. q ++ id ∷ []) grown.1,
)
  where
    u : IdRing
    u = ensure_capacity (r.size + 1) r

    grown : IsValid u × (contents u ≡ contents r) × (u.size ≡ r.size) × (r.size + 1 ≤ length u.buf)
    grown = ensure_capacity_lem (r.size + 1) r (omega arith) v

    room : u.size < length u.buf
    room = omega (arith, grown)

    new : listed (contents u) id ≡ false
    new = rw grown.1 (ground arith)

    proper : (id =? "") ≡ false
    proper = ground arith

-- `PushBack` appends an id that is not empty and not there, and does nothing else.
pub push_back_refines :
    (id : String) (r : IdRing)
    → IsValid r
    → IsValid (push_back id r)
      × (contents (push_back id r)
          ≡ (if id =? "" || listed (contents r) id then contents r else contents r ++ id ∷ []))
unfolding push_back
push_back_refines id r v = elim (Bool-cases (id =? "" || listed (contents r) id)) [
  | inl skip ↦ rw (v.indexed, skip) (v, refl)
  | inr append ↦ rw (v.indexed, append) (push_fresh id r v append)
]

-- The ring that `PopFront` leaves behind.
module _ (r : IdRing) (v : IsValid r) (n : ℕ) (e : r.size ≡ suc n) where
  front : contents r ≡ get_or r.buf r.head "" ∷ slots r.buf (r.head + 1) n
  front = rw e (ap (λ k. get_or r.buf k "" ∷ slots r.buf (r.head + 1) n) (mod-eq_of_lt v.head_in))

  abbrev popped : IdRing
  popped = record {
    buf = set r.buf r.head "";
    head = if n == 0 then 0 else (r.head + 1) % length r.buf;
    size = n;
    index = delete (get_or r.buf r.head "") r.index;
  }

  pop_front-popped : pop_front r ≡ (some (get_or r.buf r.head ""), popped)
  unfolding pop_front
  pop_front-popped = ground arith

  -- The cell at the head is emptied, and the run starts one further.
  slots-popped : slots (set r.buf r.head "") (r.head + 1) n ≡ slots r.buf (r.head + 1) n
  slots-popped =
      subst (λ k. slots (set r.buf k "") (r.head + 1) n ≡ slots r.buf (r.head + 1) n) at_head
        (slots-set_outside r.buf (r.head + 1) n (r.head + length r.buf) ""
          (omega (arith, v.size_in)) (omega arith))
    where
      at_head : (r.head + length r.buf) % length r.buf ≡ r.head
      at_head = add-mod_right r.head (length r.buf) ∙ mod-eq_of_lt v.head_in

  slots-wrapped :
      slots (set r.buf r.head "") ((r.head + 1) % length r.buf) n
      ≡ slots (set r.buf r.head "") (r.head + 1) n
  slots-wrapped =
      subst
        (λ k.
          slots (set r.buf r.head "") ((r.head + 1) % k) n
          ≡ slots (set r.buf r.head "") (r.head + 1) n)
        (length-set r.buf r.head "") (slots-mod (set r.buf r.head "") (r.head + 1) n)

  contents-popped : contents popped ≡ slots r.buf (r.head + 1) n
  contents-popped = elim (Bool-cases (n == 0)) [
    | inl none_left ↦ ground arith
    | inr some_left ↦ rw some_left (slots-wrapped ∙ slots-popped)
  ]

  indexed-popped : (k : String) → has k popped.index ≡ listed (slots r.buf (r.head + 1) n) k
  indexed-popped k = ground (
    arith,
    has-delete (get_or r.buf r.head "") k r.index,
    v.indexed k,
    ap (λ q. listed q k) front,
    string_iff (get_or r.buf r.head "") k,
    subst IsDistinct front v.distinct,
    ap (λ x. listed (slots r.buf (r.head + 1) n) x) {x = get_or r.buf r.head ""} {y = k},
  )

  popped-IsValid : IsValid popped
  popped-IsValid = record {
    head_in = rw length-set (
        ground
          (arith, mod-lt (r.head + 1) {m = length r.buf} (omega (arith, v.head_in)), v.head_in));
    size_in = rw length-set (omega (arith, v.size_in));
    nonempty = rw contents-popped (ground (arith, v.nonempty, ap (λ q. listed q "") front));
    distinct = rw contents-popped (subst IsDistinct front v.distinct).1;
    indexed = λ k. rw contents-popped (indexed-popped k);
  }

pop_front_empty : (r : IdRing) → r.size ≡ 0 → pop_front r ≡ (none, r)
unfolding pop_front
pop_front_empty r e = ground arith

-- `PopFront` takes the oldest id out, if there is one.
pub pop_front_refines :
    (r : IdRing)
    → IsValid r
    → IsValid (pop_front r).1
      × ((item (pop_front r).0, contents (pop_front r).1) ≡ apply pop (contents r))
unfolding apply
pop_front_refines r v = by_size r.size refl
  where
    Popped : Option String × IdRing → Type 0
    Popped x = IsValid x.1 × ((item x.0, contents x.1) ≡ apply pop (contents r))

    by_size : (n : ℕ) → r.size ≡ n → Popped (pop_front r)
    by_size zero e =
        subst Popped (sym (pop_front_empty r e))
          (v, subst (λ q. (item none, q) ≡ apply pop q) (sym (ap (slots r.buf r.head) e)) refl)
    by_size (suc n) e = subst Popped (sym (pop_front-popped r v n e)) (
      popped-IsValid r v n e,
      subst (λ q. (item (some (get_or r.buf r.head "")), contents (popped r v n e)) ≡ apply pop q)
          (sym (front r v n e))
          (ap (λ q. (item (some (get_or r.buf r.head "")), q)) (contents-popped r v n e)),
    )
