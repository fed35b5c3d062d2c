-- ===== src/Memory/IdRing/Slots.antt =====
-- The run of buffer cells that starts at the head and goes round at the end of the buffer.
use native.Mathlib.Nat.{mod-add-mod, mod-eq_of_lt, mod-eq-sub-mod, mod-lt, mod-mod, add-zero}
use xgc_agent.Memory.IdRing.{IdRing}
use xgc_agent.Prelude.Maps.{has}
use xgc_agent.Prelude.{
  false, string_eq, contains as listed, ℕ, zero, suc, ◌+◌, ◌-◌, ◌%◌, ◌≤◌, ◌<◌, ◌≡◌, ◌≢◌, refl, sym,
  ap, ap₂, subst, ◌∙◌, String, List, [], ◌∷◌, ◌++◌, arith, dec_lt, length, get_or, set, length-set,
  get_or-set_self, get_or-set_ne,
}

-- Fewer than `m` steps round a cycle of `m` do not come back to the start.
add-mod-ne : (m a d : ℕ) → d < m → 0 < d → (a + d) % m ≢ a % m
add-mod-ne m a d hd pos e = elim (dec_lt (a % m + d) m) [
  | yes p ↦ omega (arith, mod-eq_of_lt p, mod-add-mod a m d)
  | no p ↦ omega (
    arith,
    mod-add-mod a m d,
    mod-lt a {m = m} (omega arith),
    mod-eq-sub-mod {n = a % m + d} {m = m} (omega arith),
    mod-eq_of_lt {n = a % m + d - m} {m = m} (omega (arith, mod-lt a {m = m} (omega arith))),
  )
]

abbrev pub cell : List String → ℕ → String
cell buf i = get_or buf (i % length buf) ""

abbrev pub slots : List String → ℕ → ℕ → List String
slots buf h zero = []
slots buf h (suc n) = cell buf h ∷ slots buf (h + 1) n

pub length-slots : (buf : List String) (h n : ℕ) → length (slots buf h n) ≡ n
length-slots buf h zero = refl
length-slots buf h (suc n) = ap suc (length-slots buf (h + 1) n)

-- Only the head's remainder counts.
pub slots-mod : (buf : List String) (h n : ℕ) → slots buf (h % length buf) n ≡ slots buf h n
slots-mod buf h zero = refl
slots-mod buf h (suc n) = ap₂ ◌∷◌ (ap (λ k. get_or buf k "") (mod-mod h (length buf))) (
    sym (slots-mod buf (h % length buf + 1) n)
    ∙ ap (λ k. slots buf k n) (mod-add-mod h (length buf) 1)
    ∙ slots-mod buf (h + 1) n)

cell-set_ne :
    (buf : List String) (h i : ℕ) (x : String)
    → h < i
    → i < h + length buf
    → cell (set buf (i % length buf) x) h ≡ cell buf h
cell-set_ne buf h i x a b =
    rw length-set
      (get_or-set_ne buf x "" (subst (λ k. k % length buf ≢ h % length buf) whole apart))
  where
    whole : h + (i - h) ≡ i
    whole = omega arith

    apart : (h + (i - h)) % length buf ≢ h % length buf
    apart = add-mod-ne (length buf) h (i - h) (omega arith) (omega arith)

cell-set_self :
    (buf : List String) (i : ℕ) (x : String)
    → 0 < length buf
    → cell (set buf (i % length buf) x) i ≡ x
cell-set_self buf i x a = rw length-set (get_or-set_self buf (i % length buf) x "" (mod-lt i a))

-- A write outside the run leaves it.
pub slots-set_outside :
    (buf : List String) (h n i : ℕ) (x : String)
    → h + n ≤ i
    → i < h + length buf
    → slots (set buf (i % length buf) x) h n ≡ slots buf h n
slots-set_outside buf h zero i x a b = refl
slots-set_outside buf h (suc n) i x a b =
    ap₂ ◌∷◌ (cell-set_ne buf h i x (omega arith) b)
      (slots-set_outside buf (h + 1) n i x (omega arith) (omega arith))

-- A write just behind the run extends it.
pub slots-set_end :
    (buf : List String) (h n : ℕ) (x : String)
    → n < length buf
    → slots (set buf ((h + n) % length buf) x) h (suc n) ≡ slots buf h n ++ x ∷ []
slots-set_end buf h zero x a = ap (λ c. c ∷ []) (rw add-zero (cell-set_self buf h x a))
slots-set_end buf h (suc n) x a =
    ap₂ ◌∷◌ (cell-set_ne buf h (h + suc n) x (omega arith) (omega arith)) (
      subst
        (λ k. slots (set buf (k % length buf) x) (h + 1) (suc n) ≡ slots buf (h + 1) n ++ x ∷ [])
        shift (slots-set_end buf (h + 1) n x (omega arith)))
  where
    shift : h + 1 + n ≡ h + suc n
    shift = omega arith

-- What a ring holds, oldest first.
abbrev pub contents : IdRing → List String
contents r = slots r.buf r.head r.size

abbrev pub IsDistinct : List String → Type 0
IsDistinct [] = Unit
IsDistinct (x ∷ xs) = (listed xs x ≡ false) × IsDistinct xs

-- The head and the size fit the buffer, the ids are distinct and not empty, and the index has them.
pub record IsValid (r : IdRing) : Type 0 where
  pub head_in : r.head < length r.buf
  pub size_in : r.size ≤ length r.buf
  pub nonempty : listed (contents r) "" ≡ false
  pub distinct : IsDistinct (contents r)
  pub indexed : (id : String) → has id r.index ≡ listed (contents r) id
