-- ===== src/Prelude/Sort.antt =====
-- `sort.Slice`, as an insertion sort. Go leaves open how items are ordered that the comparison does
-- not tell apart.
use Prim.Native.Nat.{suc}
use mathlib.Core.List.Perm
use mathlib.Core.Path.{◌≡◌, refl, sym, ap, ◌∙◌}
use mathlib.Core.Logic.{inl, inr}
use mathlib.Core.Bool.{Bool, true, false}
use mathlib.Core.List.{List, [], ◌∷◌, Perm, foldr}
use native.Mathlib.Omega.{arith}
use xgc_agent.Prelude.Tests.{if◌then◌else◌, Bool-cases}
use xgc_agent.Prelude.Lists.{All, length}

module _ {ℓ} {A : Type ℓ} (less : A → A → Bool) where
  unfoldable pub insert_sorted : A → List A → List A
  insert_sorted x [] = x ∷ []
  insert_sorted x (y ∷ ys) =
      let further = insert_sorted x ys in if less y x then y ∷ further else x ∷ y ∷ ys

  unfoldable pub sort : List A → List A
  unfolding insert_sorted
  sort [] = []
  sort (x ∷ xs) = insert_sorted x (sort xs)

  -- No item stands directly before one that is less.
  abbrev pub IsSorted : List A → Type 0
  IsSorted [] = Unit
  IsSorted (x ∷ []) = Unit
  IsSorted (x ∷ y ∷ ys) = (less y x ≡ false) × IsSorted (y ∷ ys)

  sort-foldr : (xs : List A) → sort xs ≡ foldr insert_sorted [] xs
  unfolding sort
  sort-foldr [] = refl
  sort-foldr (x ∷ xs) = ap (insert_sorted x) (sort-foldr xs)

  length-insert_sorted : (x : A) (ys : List A) → length (insert_sorted x ys) ≡ suc (length ys)
  unfolding insert_sorted
  length-insert_sorted x [] = refl
  length-insert_sorted x (y ∷ ys) = ground (arith, length-insert_sorted x ys)

  pub length-sort : (xs : List A) → length (sort xs) ≡ length xs
  unfolding sort
  length-sort [] = refl
  length-sort (x ∷ xs) = length-insert_sorted x (sort xs) ∙ ap suc (length-sort xs)

  insert_sorted-perm : (x : A) (ys : List A) → Perm (insert_sorted x ys) (x ∷ ys)
  unfolding insert_sorted
  insert_sorted-perm x [] = Perm.refl (x ∷ [])
  insert_sorted-perm x (y ∷ ys) = elim (Bool-cases (less y x)) [
    | inl before ↦ rw before (Perm.trans (Perm.cons y (insert_sorted-perm x ys)) (Perm.swap x y ys))
    | inr here ↦ rw here (Perm.refl (x ∷ y ∷ ys))
  ]

  pub sort-perm : (xs : List A) → Perm (sort xs) xs
  unfolding sort
  sort-perm [] = Perm.refl []
  sort-perm (x ∷ xs) = Perm.trans (insert_sorted-perm x (sort xs)) (Perm.cons x (sort-perm xs))

  module _ (asym : (x y : A) → less x y ≡ true → less y x ≡ false) where
    insert_sorted-IsSorted : (x : A) (ys : List A) → IsSorted ys → IsSorted (insert_sorted x ys)
    unfolding insert_sorted
    insert_sorted-IsSorted x [] h = tt
    insert_sorted-IsSorted x (y ∷ []) h = ground (arith, asym y x)
    insert_sorted-IsSorted x (y ∷ z ∷ zs) h =
        ground (arith, asym y x, insert_sorted-IsSorted x (z ∷ zs) h.1)

    pub sort-IsSorted : (xs : List A) → IsSorted (sort xs)
    unfolding sort
    sort-IsSorted [] = tt
    sort-IsSorted (x ∷ xs) = insert_sorted-IsSorted x (sort xs) (sort-IsSorted xs)

  insert_sorted-All {κ} :
      (P : A → Type κ) (x : A) (ys : List A) → P x → All P ys → All P (insert_sorted x ys)
  unfolding insert_sorted
  insert_sorted-All P x [] px h = (px, tt)
  insert_sorted-All P x (y ∷ ys) px h = ground (arith, insert_sorted-All P x ys px h.1)

  pub sort-All {κ} : (P : A → Type κ) (xs : List A) → All P xs → All P (sort xs)
  unfolding sort
  sort-All P [] h = tt
  sort-All P (x ∷ xs) h = insert_sorted-All P x (sort xs) h.0 (sort-All P xs h.1)

  module _ (asym : (x y : A) → less x y ≡ true → less y x ≡ false)
      (trans : (x y z : A) → less x y ≡ false → less y z ≡ false → less x z ≡ false)
      (antisym : (x y : A) → less x y ≡ false → less y x ≡ false → x ≡ y) where
    insert_sorted_comm :
        (x y : A) (zs : List A)
        → insert_sorted x (insert_sorted y zs) ≡ insert_sorted y (insert_sorted x zs)
    unfolding insert_sorted
    insert_sorted_comm x y [] = ground (arith, asym x y, asym y x, antisym x y)
    insert_sorted_comm x y (z ∷ zs) = ground (
      arith,
      insert_sorted_comm x y zs,
      asym x y,
      asym y x,
      antisym x y,
      trans x y z,
      trans y x z,
      trans x z y,
      trans y z x,
      asym z x,
      asym z y,
    )

    -- The order of what is sorted does not matter, when items that neither precedes are equal.
    pub sort-Perm : IsSet A → {xs ys : List A} → Perm xs ys → sort xs ≡ sort ys
    sort-Perm A_set {xs} {ys} p =
        sort-foldr xs
        ∙ Perm.foldr-eq (hlevel A_set) insert_sorted insert_sorted_comm p []
        ∙ sym (sort-foldr ys)
