-- ===== src/Rag/Chunker/Cover.antt =====
-- The chunks cover the text.
use xgc_agent.Prelude.{
  ℕ, zero, suc, ◌+◌, ◌-◌, ◌≤◌, ◌<◌, ◌≡◌, refl, sym, ap, ap₂, ◌∙◌, List, [], ◌∷◌, ◌++◌, arith, ◌==◌,
  min, length, take, drop, length-take, length-drop, take-append-drop, append-nil, inl, inr,
  Bool-cases, All, lt→ltb,
}
use xgc_agent.Prelude.Int.{ℤ, pos, negsuc}
use xgc_agent.Rag.Chunker.{FixedSizeChunker, new_fixed_size_chunker, step_of, chunk_from, chunk}

overlap_is_less :
    (size overlap : ℤ)
    → (new_fixed_size_chunker size overlap).overlap
      < (new_fixed_size_chunker size overlap).chunk_size
unfolding new_fixed_size_chunker
overlap_is_less (pos zero) (pos n) = ground arith
overlap_is_less (pos zero) (negsuc n) = omega arith
overlap_is_less (pos (suc m)) (pos n) = ground arith
overlap_is_less (pos (suc m)) (negsuc n) = omega arith
overlap_is_less (negsuc m) (pos n) = ground arith
overlap_is_less (negsuc m) (negsuc n) = omega arith

module _ {ℓ} {Rune : Type ℓ} where
  -- The later chunks without what they repeat of the one before.
  abbrev pub further : ℕ → List (List Rune) → List Rune
  further overlap [] = []
  further overlap (c ∷ cs) = drop overlap c ++ further overlap cs

  -- The text that the chunks come from.
  abbrev pub rejoin : ℕ → List (List Rune) → List Rune
  rejoin overlap [] = []
  rejoin overlap (c ∷ cs) = c ++ further overlap cs

  drop-append : (k : ℕ) (xs ys : List Rune) → k ≤ length xs → drop k (xs ++ ys) ≡ drop k xs ++ ys
  drop-append zero xs ys h = refl
  drop-append (suc k) [] ys h = absurd (omega arith)
  drop-append (suc k) (x ∷ xs) ys h = drop-append k xs ys (omega arith)

  drop_none : (n : ℕ) → drop {A = Rune} n [] ≡ []
  drop_none zero = refl
  drop_none (suc n) = refl

  drop-drop : (j i : ℕ) (xs : List Rune) → drop j (drop i xs) ≡ drop (i + j) xs
  drop-drop j zero xs = ap (λ n. drop n xs) (omega arith)
  drop-drop zero (suc i) [] = sym (drop_none (suc i + 0))
  drop-drop (suc j) (suc i) [] = sym (drop_none (suc i + suc j))
  drop-drop j (suc i) (x ∷ xs) =
      drop-drop j i xs ∙ ap (λ n. drop n (x ∷ xs)) {x = suc (i + j)} (omega arith)

  take-all : (n : ℕ) (xs : List Rune) → length xs ≤ n → take n xs ≡ xs
  take-all zero [] h = refl
  take-all zero (x ∷ xs) h = absurd (omega arith)
  take-all (suc n) [] h = refl
  take-all (suc n) (x ∷ xs) h = ap (λ r. x ∷ r) (take-all n xs (omega arith))

  -- A chunk has a rune, and no more than the chunk size.
  pub IsChunk : FixedSizeChunker → List Rune → Type 0
  IsChunk c k = (0 < length k) × (length k ≤ c.chunk_size)

  module _ (c : FixedSizeChunker) (runes : List Rune) (proper : c.overlap < c.chunk_size) where
    -- What the loop from `i` gives.
    record IsCover (i : ℕ) (chunks : List (List Rune)) : Type ℓ where
      head : List Rune
      tail : List (List Rune)
      shape : chunks ≡ head ∷ tail
      size : length head ≡ min c.chunk_size (length runes - i)
      whole : head ++ further c.overlap tail ≡ drop i runes
      sizes : All (IsChunk c) (head ∷ tail)

    step_of_lem : step_of c ≡ c.chunk_size - c.overlap
    unfolding step_of
    step_of_lem = ground (arith, proper)

    -- The chunk at `i`.
    at : ℕ → List Rune
    at i = take (min (i + c.chunk_size) (length runes) - i) (drop i runes)

    length-at : (i : ℕ) → i < length runes → length (at i) ≡ min c.chunk_size (length runes - i)
    unfolding at
    length-at i h = omega (
      arith,
      length-take (min (i + c.chunk_size) (length runes) - i) (drop i runes),
      length-drop i runes,
    )

    at-IsChunk : (i : ℕ) → i < length runes → IsChunk c (at i)
    unfolding IsChunk
    at-IsChunk i h = (omega (arith, length-at i h, proper), omega (arith, length-at i h))

    last-IsCover :
        (i : ℕ) → i < length runes → length runes ≤ i + c.chunk_size → IsCover i (at i ∷ [])
    last-IsCover i h l = record {
      head = at i;
      tail = [];
      shape = refl;
      size = length-at i h;
      whole = append-nil (at i) ∙ all_left;
      sizes = (at-IsChunk i h, tt);
    }
      where
        all_left : at i ≡ drop i runes
        all_left =
            unfold at in
            take-all (min (i + c.chunk_size) (length runes) - i) (drop i runes)
              (omega (arith, length-drop i runes))

    cons-IsCover :
        (i : ℕ) (chunks : List (List Rune))
        → i + c.chunk_size < length runes
        → IsCover (i + (c.chunk_size - c.overlap)) chunks
        → IsCover i (at i ∷ chunks)
    cons-IsCover i chunks h r = record {
      head = at i;
      tail = r.head ∷ r.tail;
      shape = ap (λ cs. at i ∷ cs) r.shape;
      size = length-at i (omega arith);
      whole =
          ap₂ ◌++◌ whole_chunk (
            sym (
              drop-append c.overlap r.head (further c.overlap r.tail)
                (omega (arith, r.size, proper)))
            ∙ ap (drop c.overlap) r.whole
            ∙ drop-drop c.overlap (i + (c.chunk_size - c.overlap)) runes
            ∙ ap (λ n. drop n runes) {y = i + c.chunk_size} (omega (arith, proper))
            ∙ sym (drop-drop c.chunk_size i runes))
          ∙ take-append-drop c.chunk_size (drop i runes);
      sizes = (at-IsChunk i (omega arith), r.sizes);
    }
      where
        whole_chunk : at i ≡ take c.chunk_size (drop i runes)
        whole_chunk = unfold at in ap (λ n. take n (drop i runes)) (omega arith)

    chunk_from-IsCover :
        (fuel i : ℕ)
        → i < length runes
        → length runes ≤ fuel + i
        → IsCover i (chunk_from c runes fuel i)
    unfolding at chunk_from
    chunk_from-IsCover zero i a b = absurd (omega arith)
    chunk_from-IsCover (suc fuel) i a b =
        elim (Bool-cases (min (i + c.chunk_size) (length runes) == length runes)) [
          | inl last ↦
              rw (chunk_from, lt→ltb i (length runes) a, last)
                (last-IsCover i a (ground (arith, last)))
          | inr goes_on ↦
              rw (chunk_from, lt→ltb i (length runes) a, goes_on, step_of_lem)
                (cons-IsCover i (chunk_from c runes fuel (i + (c.chunk_size - c.overlap)))
                  (ground (arith, goes_on))
                  (chunk_from-IsCover fuel (i + (c.chunk_size - c.overlap))
                    (ground (arith, goes_on)) (omega (arith, proper))))
        ]

  -- Whatever sizes a chunker is made with, its chunks give the text back when each after the first is
  -- taken without the overlap, and each has at least one rune and no more than the chunk size.
  pub rejoin-chunk :
      (size overlap : ℤ) (runes : List Rune)
      → let c = new_fixed_size_chunker size overlap in
        (rejoin c.overlap (chunk c runes) ≡ runes) × All (IsChunk c) (chunk c runes)
  unfolding chunk
  rejoin-chunk size overlap [] = unfold chunk_from in (refl, tt)
  rejoin-chunk size overlap (x ∷ runes) =
      let c = new_fixed_size_chunker size overlap in
      let r =
        chunk_from-IsCover c (x ∷ runes) (overlap_is_less size overlap) (length (x ∷ runes)) 0
          (omega arith) (omega arith) in
      rw r.shape (r.whole, r.sizes)
