-- ===== src/Rag/Chunker.antt =====
-- `FixedSizeChunker` of rag/chunker.go. A text is the list of its runes.
pub mod Cover
use xgc_agent.Prelude.{
  ℕ, zero, suc, ◌+◌, ◌-◌, Bool, true, false, ◌||◌, List, [], ◌∷◌, if◌then◌else◌, ltb, leb, ◌==◌,
  min, length, take, drop,
}
use xgc_agent.Prelude.Int.{ℤ, pos, negsuc, is_nonpos, to_ℕ}

-- The sizes are those that the constructor leaves, which are not negative.
pub record FixedSizeChunker : Type 0 where
  pub chunk_size : ℕ
  pub overlap : ℕ

-- `overlap < 0 || overlap >= size`
abbrev pub is_refused : ℤ → ℕ → Bool
is_refused (pos overlap) size = leb size overlap
is_refused (negsuc n) size = true

unfoldable pub new_fixed_size_chunker : ℤ → ℤ → FixedSizeChunker
new_fixed_size_chunker size overlap =
    let size' = if is_nonpos size then 512 else to_ℕ size in
    record { chunk_size = size'; overlap = if is_refused overlap size' then 0 else to_ℕ overlap }

unfoldable pub step_of : FixedSizeChunker → ℕ
step_of c = if c.chunk_size - c.overlap == 0 then c.chunk_size else c.chunk_size - c.overlap

module _ {ℓ} {Rune : Type ℓ} where
  -- The loop from the position `i`, on fuel.
  unfoldable pub chunk_from : FixedSizeChunker → List Rune → ℕ → ℕ → List (List Rune)
  chunk_from c runes zero i = []
  chunk_from c runes (suc fuel) i =
      let end = min (i + c.chunk_size) (length runes) in
      let rest = chunk_from c runes fuel (i + step_of c) in
      if ltb i (length runes)
      then take (end - i) (drop i runes) ∷ (if end == length runes then [] else rest)
      else []

  -- A round for each rune is enough, since every round goes on by at least one.
  unfoldable pub chunk : FixedSizeChunker → List Rune → List (List Rune)
  chunk c runes = chunk_from c runes (length runes) 0
