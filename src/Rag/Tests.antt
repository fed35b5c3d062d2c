-- ===== src/Rag/Tests.antt =====
-- Concrete runs of the chunker.
use xgc_agent.Prelude.{ℕ, ◌+◌, ◌≤◌, length, ◌≡◌, refl, List, [], ◌∷◌, All}
use xgc_agent.Prelude.Int.{pos}
use xgc_agent.Rag.Chunker.{FixedSizeChunker, new_fixed_size_chunker, step_of, chunk_from, chunk}
use xgc_agent.Rag.Chunker.Cover.{IsChunk, rejoin, rejoin-chunk}
use xgc_agent.Rag.Paragraphs.{
  chunk_paragraphs, dense, dense_all, breaks, IsParagraph, chunk_paragraphs_lem,
}
use xgc_agent.Prelude.Text.{trim_space, trim_left, trim_right, is_space}

abbrev text : List ℕ
text = 1 ∷ 2 ∷ 3 ∷ 4 ∷ 5 ∷ 6 ∷ []

abbrev overlapping : FixedSizeChunker
overlapping = record { chunk_size = 4; overlap = 1 }

chunk-text : chunk overlapping text ≡ (1 ∷ 2 ∷ 3 ∷ 4 ∷ []) ∷ (4 ∷ 5 ∷ 6 ∷ []) ∷ []
unfolding chunk chunk_from step_of
chunk-text = refl

rejoin-chunk_example :
    let c = new_fixed_size_chunker (pos 4) (pos 1) in
    (rejoin c.overlap (chunk c text) ≡ text) × All (IsChunk c) (chunk c text)
rejoin-chunk_example = rejoin-chunk (pos 4) (pos 1) text

chunk_two_paragraphs : chunk_paragraphs " one\ntwo\n\n\n three \n\n  " ≡ "one\ntwo" ∷ "three" ∷ []
unfolding chunk_paragraphs trim_space trim_left trim_right is_space
chunk_two_paragraphs = refl

chunk_paragraphs_lem_example :
    All IsParagraph (chunk_paragraphs "one\n\n two")
    × (dense_all (chunk_paragraphs "one\n\n two") ≡ dense "one\n\n two")
    × (length (chunk_paragraphs "one\n\n two") ≤ breaks "one\n\n two" + 1)
chunk_paragraphs_lem_example = chunk_paragraphs_lem "one\n\n two"
