-- ===== src/Memory/ShortTerm/Window.antt =====
-- The ids that a short-term memory keeps in order.
use xgc_agent.Prelude.{
  ℕ, zero, suc, ◌-◌, ◌≤◌, ◌<◌, ◌≡◌, refl, sym, ap, ◌∙◌, String, Bool, true, false, not, ◌&&◌,
  Option, none, some, List, [], ◌∷◌, arith, if◌then◌else◌, ltb, length, drop, keep,
  contains as listed, ◌=?◌, string_eq, string_iff, beq_refl, inl, inr, Bool-cases,
}
use xgc_agent.Prelude.Int.{ℤ, is_nonpos, to_ℕ}
use xgc_agent.Memory.IdQueue.{Reply, item, apply, pop}
use xgc_agent.Memory.IdRing.{IdRing, pop_front, remove, values}
use xgc_agent.Memory.IdRing.Slots.{contents, length-slots, IsValid}
use xgc_agent.Memory.IdRing.Refine.{pop_front_refines}
use xgc_agent.Memory.IdRing.Queue.{remove_refines, values_refines}
use xgc_agent.Memory.ShortTerm.{ShortTermMemory, StoreManager}
use xgc_agent.Memory.ShortTerm.Calls.{is_stale, forget, cleanup_expired, trim_loop, trim}

item_of : Reply → Option String
item_of (item o) = o
item_of _ = none

pop_front-cons :
    (r : IdRing) (x : String) (q : List String)
    → IsValid r
    → contents r ≡ x ∷ q
    → ((pop_front r).0 ≡ some x) × (contents (pop_front r).1 ≡ q) × IsValid (pop_front r).1
unfolding item_of apply
pop_front-cons r x q v e =
    let p = pop_front_refines r v in
    let same = p.1 ∙ ap (apply pop) e in (ap (λ a. item_of a.0) same, ap (λ a. a.1) same, p.0)

remove-keep :
    (id : String) (r : IdRing)
    → IsValid r
    → IsValid (remove id r).1 × (contents (remove id r).1 ≡ keep (λ x. not (x =? id)) (contents r))
unfolding apply
remove-keep id r v = let p = remove_refines id r v in (p.0, ap (λ a. a.1) p.1)

keep-keep :
    (id : String) (ids q : List String)
    → keep (λ x. not (listed ids x)) (keep (λ x. not (x =? id)) q)
      ≡ keep (λ x. not (listed (id ∷ ids) x)) q
keep-keep id ids [] = refl
keep-keep id ids (x ∷ q) = ground (arith, keep-keep id ids q, string_iff x id, string_iff id x)

keep_all : (q : List String) → keep (λ x. true) q ≡ q
keep_all [] = refl
keep_all (x ∷ q) = ap (λ r. x ∷ r) (keep_all q)

drop-nil : (n : ℕ) → drop {A = String} n [] ≡ []
drop-nil zero = refl
drop-nil (suc n) = refl

drop-further :
    (x : String) (q : List String) (capacity : ℕ)
    → capacity < length (x ∷ q)
    → drop (length q - capacity) q ≡ drop (length (x ∷ q) - capacity) (x ∷ q)
drop-further x q capacity h = ap (λ n. drop n (x ∷ q)) {x = suc (length q - capacity)} (omega arith)

drop-within :
    (q : List String) (capacity : ℕ) → length q ≤ capacity → drop (length q - capacity) q ≡ q
drop-within q capacity h = ap (λ n. drop n q) {y = 0} (omega arith)

listed-keep :
    (p : String → Bool) (ys : List String) (x : String)
    → listed (keep p ys) x ≡ (p x && listed ys x)
listed-keep p [] x = ground arith
listed-keep p (y ∷ ys) x = ground (arith, listed-keep p ys x, string_iff y x, ap p {x = y} {y = x})

keep_others :
    (p : String → Bool) (ys xs : List String)
    → ((x : String) → listed xs x ≡ true → listed ys x ≡ true)
    → keep (λ x. not (listed (keep p ys) x)) xs ≡ keep (λ x. not (p x)) xs
keep_others p ys [] h = refl
keep_others p ys (x ∷ xs) h =
    ground
      (arith, keep_others p ys xs (λ y k. h y (ground arith)), listed-keep p ys x, h x, beq_refl x)

-- The ids that are kept of a queue: the last ones, as many as the capacity, if it is positive.
abbrev pub window : ℤ → List String → List String
window capacity q = if is_nonpos capacity then q else drop (length q - to_ℕ capacity) q

pub length-contents : (r : IdRing) → length (contents r) ≡ r.size
length-contents r = length-slots r.buf r.head r.size

module _ {Any Store : Type 0} (manager : StoreManager Any Store) where
  forget_lem :
      (ids : List String) (m : ShortTermMemory Store)
      → IsValid m.order
      → IsValid (forget manager ids m).order
        × (contents (forget manager ids m).order
            ≡ keep (λ x. not (listed ids x)) (contents m.order))
        × ((forget manager ids m).capacity ≡ m.capacity)
  unfolding forget
  forget_lem [] m v = (v, sym (keep_all (contents m.order)), refl)
  forget_lem (id ∷ ids) m v =
      let gone = remove-keep id m.order v in
      let rest =
        forget_lem ids
          (record m {
            store = (manager.delete m.user_id id m.store).1;
            order = (remove id m.order).1;
          })
          gone.0 in
      (
        rest.0,
        rest.1 ∙ ap (keep (λ x. not (listed ids x))) gone.1 ∙ keep-keep id ids (contents m.order),
        rest.2,
      )

  sized :
      (m : ShortTermMemory Store) (q : List String) → contents m.order ≡ q → m.order.size ≡ length q
  sized m q e = sym (length-contents m.order) ∙ ap length e

  stays :
      (m : ShortTermMemory Store) (q : List String) (capacity : ℕ)
      → contents m.order ≡ q
      → length q ≤ capacity
      → ltb capacity m.order.size ≡ false
  stays m q capacity e h = ground (arith, sized m q e, h)

  trim_loop_lem :
      (fuel capacity : ℕ) (m : ShortTermMemory Store) (q : List String)
      → IsValid m.order
      → contents m.order ≡ q
      → length q ≤ fuel
      → IsValid (trim_loop manager fuel capacity m).order
        × (contents (trim_loop manager fuel capacity m).order ≡ drop (length q - capacity) q)
  unfolding trim_loop
  trim_loop_lem zero capacity m [] v e h = (v, e ∙ sym (drop-nil (0 - capacity)))
  trim_loop_lem zero capacity m (x ∷ q) v e h = absurd (omega arith)
  trim_loop_lem (suc fuel) capacity m [] v e h =
      rw (trim_loop, stays m [] capacity e (omega arith)) (v, e ∙ sym (drop-nil (0 - capacity)))
  trim_loop_lem (suc fuel) capacity m (x ∷ q) v e h =
      elim (Bool-cases (ltb capacity (suc (length q)))) [
        | inr small ↦
            rw (trim_loop, stays m (x ∷ q) capacity e (ground (arith, small)))
              (v, e ∙ sym (drop-within (x ∷ q) capacity (ground (arith, small))))
        | inl large ↦
            let p = pop_front-cons m.order x q v e in
            let m' = record m {
              store = (manager.delete m.user_id x m.store).1;
              order = (pop_front m.order).1;
            } in
            let rest = trim_loop_lem fuel capacity m' q p.2 p.1 (omega arith) in
            rw (trim_loop, sized m (x ∷ q) e, large, p.0)
              (rest.0, rest.1 ∙ drop-further x q capacity (ground (arith, large)))
      ]

  -- `trimLocked` keeps the last ids, as many as the capacity, and none is lost if that is not
  -- positive.
  pub trim_lem :
      (m : ShortTermMemory Store)
      → IsValid m.order
      → IsValid (trim manager m).order
        × (contents (trim manager m).order ≡ window m.capacity (contents m.order))
  unfolding trim
  trim_lem m v = elim (Bool-cases (is_nonpos m.capacity)) [
    | inl free ↦ rw (trim, free) (v, refl)
    | inr bound ↦
        rw (trim, bound)
          (trim_loop_lem m.order.size (to_ℕ m.capacity) m (contents m.order) v refl
            (omega (arith, length-contents m.order)))
  ]

  -- `cleanupExpiredLocked` keeps the ids whose item the store has and that is not expired.
  pub cleanup_expired_lem :
      (now : ℕ) (m : ShortTermMemory Store)
      → IsValid m.order
      → IsValid (cleanup_expired manager now m).order
        × (contents (cleanup_expired manager now m).order
            ≡ keep (λ id. not (is_stale manager now m id)) (contents m.order))
        × ((cleanup_expired manager now m).capacity ≡ m.capacity)
  unfolding cleanup_expired
  cleanup_expired_lem now m v =
      let f = forget_lem (keep (is_stale manager now m) (values m.order)) m v in
      (
        f.0,
        f.1
            ∙ ap
                (λ ids.
                  keep (λ x. not (listed (keep (is_stale manager now m) ids) x)) (contents m.order))
                (values_refines m.order v)
            ∙ keep_others (is_stale manager now m) (contents m.order) (contents m.order) (λ x h. h),
        f.2,
      )
