-- ===== src/Memory/IdRing/Grow.antt =====
-- `ensureCapacity` moves the ids to the front of a larger buffer.
use native.Mathlib.Nat.{mod-eq_of_lt, zero-add, add-zero}
use native.Mathlib.Numerals.{add-one}
use xgc_agent.Prelude.{
  ℕ, zero, suc, ◌+◌, ◌%◌, ◌≤◌, ◌<◌, ◌≡◌, refl, ap, subst, ◌∙◌, String, Bool, false, ◌||◌,
  Bool-cases, inl, inr, leb→le, List, [], ◌∷◌, ◌++◌, arith, leb, if◌then◌else◌, length, set,
  replicate, length-set, length-replicate, append_assoc, append-nil, contains as listed, ◌=?◌,
  string_eq,
}
use xgc_agent.Prelude.Maps.{Map, has, insert, has-insert}
use xgc_agent.Memory.IdRing.{
  IdRing, grow, copy_from, ensure_capacity, new_capacity, ensure_capacity,
}
use xgc_agent.Memory.IdRing.Slots.{cell, slots, contents, IsValid, slots-set_end}

-- A write at the end of a run that starts at the front.
front-set :
    (buf : List String) (i : ℕ) (x : String)
    → i < length buf
    → slots (set buf i x) 0 (i + 1) ≡ slots buf 0 i ++ x ∷ []
front-set buf i x h = rw add-one (
    subst (λ k. slots (set buf k x) 0 (suc i) ≡ slots buf 0 i ++ x ∷ []) at_end
      (slots-set_end buf 0 i x h))
  where
    at_end : (0 + i) % length buf ≡ i
    at_end = rw zero-add (mod-eq_of_lt h)

module _ (buf : List String) (head : ℕ) where
  -- The loop copies the rest of the run behind what it has copied.
  copy_from-slots :
      (i n : ℕ) (new_buf : List String) (new_index : Map String ℕ)
      → i + n ≤ length new_buf
      → slots (copy_from buf head i n (new_buf, new_index)).0 0 (i + n)
        ≡ slots new_buf 0 i ++ slots buf (head + i) n
  unfolding copy_from
  copy_from-slots i zero new_buf new_index h = rw (add-zero, append-nil)
  copy_from-slots i (suc n) new_buf new_index h =
      subst (λ k. slots copied 0 k ≡ slots new_buf 0 i ++ slots buf (head + i) (suc n)) longer
        (copy_from-slots (i + 1) n (set new_buf i id) indexed fits ∙ joined)
    where
      id : String
      id = cell buf (head + i)

      indexed : Map String ℕ
      indexed = if id =? "" then new_index else insert id i new_index

      copied : List String
      copied = (copy_from buf head (i + 1) n (set new_buf i id, indexed)).0

      longer : i + 1 + n ≡ i + suc n
      longer = omega arith

      fits : i + 1 + n ≤ length (set new_buf i id)
      fits = rw length-set (omega arith)

      joined :
          slots (set new_buf i id) 0 (i + 1) ++ slots buf (head + (i + 1)) n
          ≡ slots new_buf 0 i ++ slots buf (head + i) (suc n)
      joined =
          rw (front-set new_buf i id (omega arith), append_assoc)
            (ap (λ k. slots new_buf 0 i ++ id ∷ slots buf k n) (omega arith))

  length-copy_from :
      (i n : ℕ) (new_buf : List String) (new_index : Map String ℕ)
      → length (copy_from buf head i n (new_buf, new_index)).0 ≡ length new_buf
  unfolding copy_from
  length-copy_from i zero new_buf new_index = refl
  length-copy_from i (suc n) new_buf new_index =
      length-copy_from (i + 1) n _ _ ∙ length-set new_buf i _

  copy_from-has :
      (k : String) (i n : ℕ) (new_buf : List String) (new_index : Map String ℕ)
      → listed (slots buf (head + i) n) "" ≡ false
      → has k (copy_from buf head i n (new_buf, new_index)).1
        ≡ (listed (slots buf (head + i) n) k || has k new_index)
  unfolding copy_from
  copy_from-has k i zero new_buf new_index h = refl
  copy_from-has k i (suc n) new_buf new_index h = ground (
    arith,
    subst
        (λ j.
          listed (slots buf j n) "" ≡ false
          → has k (copy_from buf head (i + 1) n (set new_buf i id, indexed)).1
            ≡ (listed (slots buf j n) k || has k indexed))
        further (copy_from-has k (i + 1) n (set new_buf i id) indexed),
    has-insert id k i new_index,
  )
    where
      id : String
      id = cell buf (head + i)

      indexed : Map String ℕ
      indexed = if id =? "" then new_index else insert id i new_index

      further : head + (i + 1) ≡ head + i + 1
      further = omega arith

new_capacity-le : (old need : ℕ) → (need ≤ new_capacity old need) × (0 < new_capacity old need)
unfolding new_capacity
new_capacity-le old need = ground arith

has-nil : (k : String) → has {V = ℕ} k [] ≡ false
unfolding has
has-nil k = refl

or-false : (b : Bool) → (b || false) ≡ b
or-false b = ground arith

module _ (need : ℕ) (r : IdRing) (fits : r.size ≤ need) (v : IsValid r) where
  empty_buf : List String
  empty_buf = replicate (new_capacity (length r.buf) need) ""

  length-empty_buf : length empty_buf ≡ new_capacity (length r.buf) need
  unfolding empty_buf
  length-empty_buf = length-replicate _ ""

  length-grow : length (grow need r).buf ≡ new_capacity (length r.buf) need
  unfolding grow empty_buf
  length-grow = length-copy_from r.buf r.head 0 r.size empty_buf [] ∙ length-empty_buf

  contents-grow : contents (grow need r) ≡ contents r
  unfolding grow empty_buf
  contents-grow =
      subst (λ k. slots (grow need r).buf 0 k ≡ slots r.buf r.head r.size) (zero-add r.size)
        (subst (λ k. slots (grow need r).buf 0 (0 + r.size) ≡ slots r.buf k r.size)
          (add-zero r.head)
          (copy_from-slots r.buf r.head 0 r.size empty_buf []
            (omega (arith, length-empty_buf, new_capacity-le (length r.buf) need))))

  has-grow : (k : String) → has k (grow need r).index ≡ listed (contents r) k
  unfolding grow empty_buf
  has-grow k =
      subst
        (λ h.
          listed (slots r.buf h r.size) "" ≡ false
          → has k (grow need r).index ≡ (listed (slots r.buf h r.size) k || has {V = ℕ} k []))
        (add-zero r.head) (copy_from-has r.buf r.head k 0 r.size empty_buf []) v.nonempty
      ∙ rw has-nil (or-false (listed (contents r) k))

  grow-IsValid : IsValid (grow need r)
  unfolding grow
  grow-IsValid = record {
    head_in = ground (arith, length-grow, new_capacity-le (length r.buf) need);
    size_in = ground (arith, length-grow, new_capacity-le (length r.buf) need);
    nonempty = rw contents-grow v.nonempty;
    distinct = rw contents-grow v.distinct;
    indexed = λ id. rw contents-grow (has-grow id);
  }

-- When the wanted number is at least the ring's size, `ensureCapacity` makes room for so many ids
-- in a valid ring, and changes neither what it holds nor its validity nor its size.
pub ensure_capacity_lem :
    (need : ℕ) (r : IdRing)
    → r.size ≤ need
    → IsValid r
    → IsValid (ensure_capacity need r)
      × (contents (ensure_capacity need r) ≡ contents r)
      × ((ensure_capacity need r).size ≡ r.size)
      × (need ≤ length (ensure_capacity need r).buf)
unfolding ensure_capacity
ensure_capacity_lem need r h v = elim (Bool-cases (leb need (length r.buf))) [
  | inl roomy ↦ rw (roomy, ensure_capacity) (v, refl, refl, leb→le _ _ roomy)
  | inr full ↦
      rw (full, ensure_capacity)
        (
          grow-IsValid need r h v,
          contents-grow need r h v,
          unfold grow in refl,
          ground (arith, length-grow need r h v, new_capacity-le (length r.buf) need),
        )
]
