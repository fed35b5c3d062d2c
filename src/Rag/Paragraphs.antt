-- ===== src/Rag/Paragraphs.antt =====
-- `ParagraphChunker` of rag/chunker.go.
use Prim.Native.Char.{Char, code}
use Prim.Native.String.{String}
use xgc_agent.Prelude.{
  ◌+◌, ◌≤◌, length, string_iff, subst, ℕ, ◌≡◌, refl, Bool, true, false, ◌&&◌, ◌||◌, List, [], ◌∷◌,
  if◌then◌else◌, ◌==◌, ◌=?◌, string_eq, arith, ◌++◌ as concat, All, Bool-cases, inl, inr, ap, sym,
  ◌∙◌,
}
use xgc_agent.Prelude.Text.{is_space, trim_space, trim_left, trim_right, trim_space_idem}

abbrev is_newline : ℕ → Bool
is_newline c = c == b'\n'

abbrev starts_line : String → Bool
starts_line String.[] = false
starts_line (String.◌∷◌ c s) = is_newline (code c)

-- One more character in front of the first piece.
abbrev in_front : Char → List String → List String
in_front c [] = String.◌∷◌ c "" ∷ []
in_front c (x ∷ xs) = String.◌∷◌ c x ∷ xs

-- `strings.Split(text, "\n\n")`
unfoldable pub split : String → List String
split String.[] = "" ∷ []
split (String.◌∷◌ c String.[]) = String.◌∷◌ c "" ∷ []
split (String.◌∷◌ c (String.◌∷◌ d s)) = elim (is_newline (code c) && is_newline (code d)) [
  | true ↦ "" ∷ split s
  | false ↦ in_front c (split (String.◌∷◌ d s))
]

-- The loop over the pieces.
unfoldable pub trimmed_parts : List String → List String
trimmed_parts [] = []
trimmed_parts (p ∷ ps) =
    let rest = trimmed_parts ps in if trim_space p =? "" then rest else trim_space p ∷ rest

unfoldable pub chunk_paragraphs : String → List String
unfolding split trimmed_parts
chunk_paragraphs text = trimmed_parts (split text)

-- The characters of a text, and of texts one after the other, that are no spaces.
abbrev pub dense : String → List ℕ
dense String.[] = []
dense (String.◌∷◌ c s) = let rest = dense s in if is_space (code c) then rest else code c ∷ rest

abbrev pub dense_all : List String → List ℕ
dense_all [] = []
dense_all (p ∷ ps) = concat (dense p) (dense_all ps)

-- Whether an empty line stands in the text.
abbrev pub has_break : String → Bool
has_break String.[] = false
has_break (String.◌∷◌ c s) = (is_newline (code c) && starts_line s) || has_break s

dense-trim_left : (s : String) → dense (trim_left s) ≡ dense s
unfolding trim_left
dense-trim_left String.[] = refl
dense-trim_left (String.◌∷◌ c s) = ground (arith, dense-trim_left s)

empty-dense : (s : String) → (s =? "") ≡ true → dense s ≡ []
empty-dense s h = ap dense ((string_iff s "").0 h)

dense-trim_right : (s : String) → dense (trim_right s) ≡ dense s
unfolding trim_right
dense-trim_right String.[] = refl
dense-trim_right (String.◌∷◌ c s) = elim (Bool-cases (is_space (code c) && trim_right s =? "")) [
  | inl cut ↦ rw cut (ground (arith, cut, dense-trim_right s, empty-dense (trim_right s)))
  | inr kept ↦ rw kept (ground (arith, dense-trim_right s))
]

dense-trim_space : (s : String) → dense (trim_space s) ≡ dense s
unfolding trim_space
dense-trim_space s = dense-trim_right (trim_left s) ∙ dense-trim_left s

dense_all-in_front :
    (c : Char) (ps : List String)
    → dense_all (in_front c ps)
      ≡ (if is_space (code c) then dense_all ps else code c ∷ dense_all ps)
dense_all-in_front c [] = ground arith
dense_all-in_front c (p ∷ ps) = ground arith

dense_all-split : (s : String) → dense_all (split s) ≡ dense s
unfolding split is_space
dense_all-split String.[] = refl
dense_all-split (String.◌∷◌ c String.[]) = ground (arith)
dense_all-split (String.◌∷◌ c (String.◌∷◌ d s)) = ground (
  arith,
  dense_all-split s,
  dense_all-split (String.◌∷◌ d s),
  dense_all-in_front c (split (String.◌∷◌ d s)),
)

dense_all-trimmed_parts : (ps : List String) → dense_all (trimmed_parts ps) ≡ dense_all ps
unfolding trimmed_parts
dense_all-trimmed_parts [] = refl
dense_all-trimmed_parts (p ∷ ps) =
    ground (arith, dense_all-trimmed_parts ps, dense-trim_space p, empty-dense (trim_space p))

-- A text with no empty line, behind a character that makes none with it.
has_break-trim_left : (s : String) → has_break s ≡ false → has_break (trim_left s) ≡ false
unfolding trim_left
has_break-trim_left String.[] h = refl
has_break-trim_left (String.◌∷◌ c s) h = ground (arith, has_break-trim_left s)

starts_line-trim_right : (s : String) → starts_line s ≡ false → starts_line (trim_right s) ≡ false
unfolding trim_right
starts_line-trim_right String.[] h = refl
starts_line-trim_right (String.◌∷◌ c s) h =
    elim (Bool-cases (is_space (code c) && trim_right s =? "")) [
      | inl cut ↦ rw cut refl
      | inr kept ↦ rw kept h
    ]

has_break-trim_right : (s : String) → has_break s ≡ false → has_break (trim_right s) ≡ false
unfolding trim_right
has_break-trim_right String.[] h = refl
has_break-trim_right (String.◌∷◌ c s) h =
    elim (Bool-cases (is_space (code c) && trim_right s =? "")) [
      | inl cut ↦ rw cut refl
      | inr kept ↦ rw kept (ground (arith, has_break-trim_right s, starts_line-trim_right s))
    ]

-- The first piece starts with a new line only if the text does, and no piece has an empty line.
abbrev StartsAs : List String → String → Type 0
StartsAs [] s = ⊥
StartsAs (p ∷ ps) s = starts_line s ≡ false → starts_line p ≡ false

abbrev NoBreak : String → Type 0
NoBreak p = has_break p ≡ false

NoBreak-in_front :
    (c : Char) (s : String) (ps : List String)
    → (is_newline (code c) && starts_line s) ≡ false
    → StartsAs ps s
    → All NoBreak ps
    → All NoBreak (in_front c ps) × StartsAs (in_front c ps) (String.◌∷◌ c s)
NoBreak-in_front c s [] e st h = absurd st
NoBreak-in_front c s (p ∷ ps) e st h = ((ground (arith, st, h.0), h.1), λ k. k)

split-both :
    (c d : Char) (s : String)
    → (is_newline (code c) && is_newline (code d)) ≡ true
    → split (String.◌∷◌ c (String.◌∷◌ d s)) ≡ "" ∷ split s
unfolding split
split-both c d s h = rw (split, h) refl

split-other :
    (c d : Char) (s : String)
    → (is_newline (code c) && is_newline (code d)) ≡ false
    → split (String.◌∷◌ c (String.◌∷◌ d s)) ≡ in_front c (split (String.◌∷◌ d s))
unfolding split
split-other c d s h = rw (split, h) refl

abbrev Pieces : String → List String → Type 0
Pieces s ps = All NoBreak ps × StartsAs ps s

split-NoBreak : (s : String) → Pieces s (split s)
unfolding split
split-NoBreak String.[] = ((refl, tt), λ h. h)
split-NoBreak (String.◌∷◌ c String.[]) = ((ground arith, tt), λ h. h)
split-NoBreak (String.◌∷◌ c (String.◌∷◌ d s)) =
    elim (Bool-cases (is_newline (code c) && is_newline (code d))) [
      | inl both ↦
          subst (Pieces _) (sym (split-both c d s both)) ((refl, (split-NoBreak s).0), λ h. refl)
      | inr e ↦
          let ih = split-NoBreak (String.◌∷◌ d s) in
          subst (Pieces _) (sym (split-other c d s e))
            (NoBreak-in_front c (String.◌∷◌ d s) (split (String.◌∷◌ d s)) e ih.1 ih.0)
    ]

-- A paragraph: no text of spaces only, with no space at its ends and no empty line.
abbrev pub IsParagraph : String → Type 0
IsParagraph p = ((p =? "") ≡ false) × (trim_space p ≡ p) × (has_break p ≡ false)

has_break-trim_space : (s : String) → has_break s ≡ false → has_break (trim_space s) ≡ false
unfolding trim_space
has_break-trim_space s h = has_break-trim_right (trim_left s) (has_break-trim_left s h)

trimmed_parts-IsParagraph : (ps : List String) → All NoBreak ps → All IsParagraph (trimmed_parts ps)
unfolding trimmed_parts
trimmed_parts-IsParagraph [] h = tt
trimmed_parts-IsParagraph (p ∷ ps) h = elim (Bool-cases (trim_space p =? "")) [
  | inl empty ↦ rw empty (trimmed_parts-IsParagraph ps h.1)
  | inr some_text ↦
      rw some_text (
        (some_text, trim_space_idem p, has_break-trim_space p h.0),
        trimmed_parts-IsParagraph ps h.1,
      )
]

-- How many empty lines stand in the text: a new line right behind another, counted at each place.
abbrev pub breaks : String → ℕ
breaks String.[] = 0
breaks (String.◌∷◌ c s) =
    let rest = breaks s in if is_newline (code c) && starts_line s then rest + 1 else rest

length-in_front_le :
    (c : Char) (ps : List String) (n : ℕ) → length ps ≤ n + 1 → length (in_front c ps) ≤ n + 1
length-in_front_le c [] n h = omega arith
length-in_front_le c (p ∷ ps) n h = h

length-split_le : (s : String) → length (split s) ≤ breaks s + 1
unfolding split
length-split_le String.[] = omega arith
length-split_le (String.◌∷◌ c String.[]) = ground arith
length-split_le (String.◌∷◌ c (String.◌∷◌ d s)) = ground (
  arith,
  length-split_le s,
  length-in_front_le c (split (String.◌∷◌ d s)) (breaks (String.◌∷◌ d s))
      (length-split_le (String.◌∷◌ d s)),
)

length-trimmed_parts_le : (ps : List String) → length (trimmed_parts ps) ≤ length ps
unfolding trimmed_parts
length-trimmed_parts_le [] = omega arith
length-trimmed_parts_le (p ∷ ps) = ground (arith, length-trimmed_parts_le ps)

-- The chunks are paragraphs: none is empty, has a space at an end or an empty line in it. They have
-- the text's characters, spaces left out, in their order, and there is at most one chunk more than
-- the text has empty lines.
pub chunk_paragraphs_lem :
    (text : String)
    → All IsParagraph (chunk_paragraphs text)
      × (dense_all (chunk_paragraphs text) ≡ dense text)
      × (length (chunk_paragraphs text) ≤ breaks text + 1)
unfolding chunk_paragraphs
chunk_paragraphs_lem text = (
  trimmed_parts-IsParagraph (split text) (split-NoBreak text).0,
  dense_all-trimmed_parts (split text) ∙ dense_all-split text,
  omega (arith, length-trimmed_parts_le (split text), length-split_le text),
)
