-- ===== src/Memory/Episodic/Range.antt =====
-- The episodes of a range of time.
use xgc_agent.Prelude.{
  ◌≡◌, refl, sym, ap, ℕ, zero, suc, ◌+◌, String, true, List, [], ◌∷◌, ◌++◌, arith, length,
  length-append, take, keep, ◌⊎◌, inl, inr, append_assoc, append-nil,
}
use xgc_agent.Prelude.Int.{ℤ, pos, negsuc, is_nonpos}
use xgc_agent.Memory.Item.{MemoryItem, Error}
use xgc_agent.Memory.Episodic.{ListingStore, in_range, range_loop, in_time, list_by_time_range}

-- All items, or as many as a positive limit allows.
abbrev pub at_most {ℓ} : {A : Type ℓ} → ℤ → List A → List A
at_most (pos zero) xs = xs
at_most (pos (suc n)) xs = take (suc n) xs
at_most (negsuc n) xs = xs

module _ {Any : Type 0} where
  no_limit :
      (limit : ℤ) (since until : ℕ) (items out : List (MemoryItem Any))
      → is_nonpos limit ≡ true
      → range_loop limit since until items out ≡ out ++ keep (in_range since until) items
  unfolding range_loop
  no_limit limit since until [] out h = sym (append-nil out)
  no_limit limit since until (it ∷ items) out h = ground (
    arith,
    no_limit limit since until items out h,
    no_limit limit since until items (out ++ it ∷ []) h,
    append_assoc out (it ∷ []) (keep (in_range since until) items),
  )

  -- There is room for so many more items, and for one.
  to_limit :
      (n k since until : ℕ) (items out : List (MemoryItem Any))
      → length out + suc k ≡ suc n
      → range_loop (pos (suc n)) since until items out
        ≡ out ++ take (suc k) (keep (in_range since until) items)
  unfolding range_loop
  to_limit n k since until [] out h = sym (append-nil out)
  to_limit n zero since until (it ∷ items) out h =
      ground (arith, to_limit n zero since until items out h, length-append out (it ∷ []))
  to_limit n (suc k) since until (it ∷ items) out h = ground (
    arith,
    to_limit n (suc k) since until items out h,
    to_limit n k since until items (out ++ it ∷ []) (omega (arith, h, length-append out (it ∷ []))),
    length-append out (it ∷ []),
    append_assoc out (it ∷ []) (take (suc k) (keep (in_range since until) items)),
  )

  range_loop_lem :
      (limit : ℤ) (since until : ℕ) (items : List (MemoryItem Any))
      → range_loop limit since until items [] ≡ at_most limit (keep (in_range since until) items)
  range_loop_lem (pos zero) since until items = no_limit (pos zero) since until items [] refl
  range_loop_lem (pos (suc n)) since until items = to_limit n n since until items [] (omega arith)
  range_loop_lem (negsuc n) since until items = no_limit (negsuc n) since until items [] refl

  abbrev pub only_in_range :
      ℕ → ℕ → ℤ → Error ⊎ List (MemoryItem Any) → Error ⊎ List (MemoryItem Any)
  only_in_range since until limit (inl e) = inl e
  only_in_range since until limit (inr items) =
      inr (at_most limit (keep (in_range since until) items))

  in_time_lem :
      (since until : ℕ) (limit : ℤ) (r : Error ⊎ List (MemoryItem Any))
      → in_time since until limit r ≡ only_in_range since until limit r
  unfolding in_time
  in_time_lem since until limit (inl e) = refl
  in_time_lem since until limit (inr items) = ap inr (range_loop_lem limit since until items)

-- ListByTimeRange fails as the store's List does, and gives else the items of that list that lie in
-- the range, in their order: the first of them up to a positive limit, and all where the limit is
-- not positive.
pub list_by_time_range_lem :
    {Any Store : Type 0} (store : ListingStore Any Store) (user_id : String) (since until : ℕ)
    (limit : ℤ) (s : Store)
    → list_by_time_range store user_id since until limit s
      ≡ only_in_range since until limit (store.list user_id (pos 0) s)
unfolding list_by_time_range
list_by_time_range_lem store user_id since until limit s =
    in_time_lem since until limit (store.list user_id (pos 0) s)
