-- ===== src/Memory/IdRing/Queue.antt =====
-- Removal and listing, and the refinement of the queue by every sequence of calls.
use native.Mathlib.Nat.{add-zero}
use xgc_agent.Prelude.{
  ℕ, zero, suc, ◌+◌, ◌≡◌, refl, sym, ap, ap₂, subst, ◌∙◌, String, Bool, true, false, ◌||◌, not,
  ◌==◌, List, [], ◌∷◌, ◌++◌, arith, if◌then◌else◌, append_assoc, append-nil, length-replicate,
  contains as listed, beq_refl, ◌=?◌, string_eq, string_iff, keep, Bool-cases, inl, inr,
}
use xgc_agent.Prelude.Int.{ℤ}
use xgc_agent.Prelude.Maps.{has}
use xgc_agent.Memory.IdQueue.{
  Op, push, take_out, pop, list, clear, Reply, nothing, item, flag, items, apply, run,
}
use xgc_agent.Memory.IdRing.{
  IdRing, new_id_ring, initial_capacity, push_back, pop_front, values, values_from, reset,
  push_others, remove,
}
use xgc_agent.Memory.IdRing.Slots.{slots, contents, IsValid, IsDistinct}
use xgc_agent.Memory.IdRing.Refine.{push_back_refines, pop_front_refines, listed-append}

values_from-slots :
    (buf : List String) (head i n : ℕ)
    → listed (slots buf (head + i) n) "" ≡ false
    → values_from buf head i n ≡ slots buf (head + i) n
unfolding values_from
values_from-slots buf head i zero h = refl
values_from-slots buf head i (suc n) h = ground (
  arith,
  subst (λ j. listed (slots buf j n) "" ≡ false → values_from buf head (i + 1) n ≡ slots buf j n)
      further (values_from-slots buf head (i + 1) n),
)
  where
    further : head + (i + 1) ≡ head + i + 1
    further = omega arith

-- `Values` lists the ids, oldest first.
pub values_refines : (r : IdRing) → IsValid r → values r ≡ contents r
unfolding values
values_refines r v =
    subst (λ h. listed (slots r.buf h r.size) "" ≡ false → values r ≡ slots r.buf h r.size)
      (add-zero r.head) (values_from-slots r.buf r.head 0 r.size) v.nonempty

-- `Reset` forgets every id and keeps the buffer's length.
pub reset_refines : (r : IdRing) → IsValid r → IsValid (reset r) × (contents (reset r) ≡ [])
unfolding reset has
reset_refines r v = (
  record {
    head_in = rw length-replicate (omega (arith, v.head_in));
    size_in = omega arith;
    nonempty = refl;
    distinct = tt;
    indexed = λ id. refl;
  },
  refl,
)

keep_absent :
    (id : String) (q : List String) → listed q id ≡ false → keep (λ x. not (x =? id)) q ≡ q
keep_absent id [] h = refl
keep_absent id (x ∷ q) h = ground (arith, keep_absent id q)

-- Pushing the others back, one by one.
push_others_refines :
    (id : String) (vals ys : List String) (r : IdRing)
    → IsValid r
    → contents r ≡ ys
    → listed vals "" ≡ false
    → IsDistinct vals
    → ((x : String) → listed vals x ≡ true → listed ys x ≡ false)
    → IsValid (push_others id vals r)
      × (contents (push_others id vals r) ≡ ys ++ keep (λ x. not (x =? id)) vals)
unfolding push_others
push_others_refines id [] ys r v c n d f = (v, rw append-nil c)
push_others_refines id (x ∷ vals) ys r v c n d f = elim (Bool-cases (x =? id)) [
  | inl gone ↦
      subst Pushed (sym gone)
        (push_others_refines id vals ys r v c (ground arith) d.1 (λ y h. f y (ground arith)))
  | inr stays ↦ subst Pushed (sym stays) (
      let rest =
        push_others_refines id vals (ys ++ x ∷ []) (push_back x r) pushed.0 extended (ground arith)
          d.1 apart in
      (rest.0, rest.1 ∙ append_assoc ys (x ∷ []) (keep (λ y. not (y =? id)) vals)))
]
  where
    Pushed : Bool → Type 0
    Pushed b =
        let others = keep (λ y. not (y =? id)) vals in
        let r' = push_others id vals (if b then r else push_back x r) in
        IsValid r' × (contents r' ≡ ys ++ (if not b then x ∷ others else others))

    pushed :
        IsValid (push_back x r)
        × (contents (push_back x r)
            ≡ (if x =? "" || listed (contents r) x then contents r else contents r ++ x ∷ []))
    pushed = push_back_refines x r v

    fresh : listed ys x ≡ false
    fresh = f x (ground (arith, beq_refl x))

    extended : contents (push_back x r) ≡ ys ++ x ∷ []
    extended =
        pushed.1
        ∙ subst (λ q. (if x =? "" || listed q x then q else q ++ x ∷ []) ≡ ys ++ x ∷ []) (sym c)
            (ground (arith, fresh, n))

    apart : (y : String) → listed vals y ≡ true → listed (ys ++ x ∷ []) y ≡ false
    apart y h = ground (
      arith,
      listed-append ys x y,
      f y,
      d.0,
      string_iff x y,
      ap (λ k. listed vals k) {x = x} {y = y},
    )

listed_size : (id : String) (r : IdRing) → listed (contents r) id ≡ true → (r.size == 0) ≡ false
listed_size id r h = by_size r.size h
  where
    by_size : (n : ℕ) → listed (slots r.buf r.head n) id ≡ true → (n == 0) ≡ false
    by_size zero h = cc
    by_size (suc n) h = ground arith

remove_there :
    (id : String) (r : IdRing)
    → has id r.index ≡ true
    → (r.size == 0) ≡ false
    → remove id r ≡ (true, push_others id (values r) (reset r))
unfolding remove
remove_there id r h k = rw (h, k)

remove_absent : (id : String) (r : IdRing) → has id r.index ≡ false → remove id r ≡ (false, r)
unfolding remove
remove_absent id r h = rw h

-- `Remove` says whether the id was there, and takes it out.
pub remove_refines :
    (id : String) (r : IdRing)
    → IsValid r
    → IsValid (remove id r).1
      × ((flag (remove id r).0, contents (remove id r).1) ≡ apply (take_out id) (contents r))
unfolding apply
remove_refines id r v = elim (Bool-cases (listed (contents r) id)) [
  | inl there ↦
      subst Removed (sym (remove_there id r (v.indexed id ∙ there) (listed_size id r there)))
        (removed there)
  | inr absent ↦
      subst Removed (sym (remove_absent id r (v.indexed id ∙ absent)))
        (v, ap₂ (λ b q. (flag b, q)) (sym absent) (sym (keep_absent id (contents r) absent)))
]
  where
    Removed : Bool × IdRing → Type 0
    Removed x = IsValid x.1 × ((flag x.0, contents x.1) ≡ apply (take_out id) (contents r))

    emptied : IsValid (reset r) × (contents (reset r) ≡ [])
    emptied = reset_refines r v

    removed : listed (contents r) id ≡ true → Removed (true, push_others id (values r) (reset r))
    removed h = rw (values_refines r v) (
        let p =
          push_others_refines id (contents r) [] (reset r) emptied.0 emptied.1 v.nonempty v.distinct
            (λ x _. refl) in
        (p.0, ap₂ (λ b q. (flag b, q)) (sym h) p.1))

-- One call, on the ring.
abbrev pub step : Op → IdRing → Reply × IdRing
step (push id) r = (nothing, push_back id r)
step (take_out id) r = let (b, r') = remove id r in (flag b, r')
step pop r = let (o, r') = pop_front r in (item o, r')
step list r = (items (values r), r)
step clear r = (nothing, reset r)

step_refines :
    (op : Op) (r : IdRing)
    → IsValid r
    → IsValid (step op r).1 × (((step op r).0, contents (step op r).1) ≡ apply op (contents r))
unfolding apply
step_refines (push id) r v = let p = push_back_refines id r v in (p.0, ap (λ q. (nothing, q)) p.1)
step_refines (take_out id) r v = remove_refines id r v
step_refines pop r v = pop_front_refines r v
step_refines list r v = (v, ap (λ q. (items q, contents r)) (values_refines r v))
step_refines clear r v = let p = reset_refines r v in (p.0, ap (λ q. (nothing, q)) p.1)

pub run_ring : List Op → IdRing → List Reply
run_ring [] r = []
run_ring (op ∷ ops) r = let (a, r') = step op r in a ∷ run_ring ops r'

-- No sequence of calls tells a valid ring from the queue of the ids that it holds.
pub run_refines : (ops : List Op) (r : IdRing) → IsValid r → run_ring ops r ≡ run ops (contents r)
unfolding run run_ring
run_refines [] r v = refl
run_refines (op ∷ ops) r v =
    let s = step_refines op r v in rw (run_refines ops (step op r).1 s.0, ← s.1)

pub new_id_ring-IsValid :
    (hint : ℤ) → IsValid (new_id_ring hint) × (contents (new_id_ring hint) ≡ [])
unfolding new_id_ring has initial_capacity
new_id_ring-IsValid hint = (
  record {
    head_in = rw length-replicate (ground arith);
    size_in = omega arith;
    nonempty = refl;
    distinct = tt;
    indexed = λ id. refl;
  },
  refl,
)

-- Whatever capacity a ring is made for, no sequence of calls tells it from an empty queue.
pub run-new_id_ring : (hint : ℤ) (ops : List Op) → run_ring ops (new_id_ring hint) ≡ run ops []
run-new_id_ring hint ops =
    let fresh = new_id_ring-IsValid hint in
    run_refines ops (new_id_ring hint) fresh.0 ∙ ap (run ops) fresh.1
