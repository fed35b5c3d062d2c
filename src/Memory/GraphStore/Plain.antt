-- ===== src/Memory/GraphStore/Plain.antt =====
-- The texts of the queries whose texts depend on arguments.
use Prim.Native.Char.{code}
use Prim.Native.String.append
use Prim.Native.String.{[] as end, ◌∷◌ as ◌then◌, ◌++◌}
use xgc_agent.Prelude.{
  ◌≡◌, refl, ap, ◌∙◌, ℕ, zero, suc, String, Bool, true, false, not, ◌&&◌, ◌||◌, Option, none, some,
  List, [], ◌∷◌, arith, if◌then◌else◌, ltb, ◌=?◌, string_eq, ◌/◌, ◌%◌, ◌==◌, ◌⊎◌, inl, inr,
  Bool-cases,
}
use xgc_agent.Prelude.Int.{ℤ}
use xgc_agent.Prelude.Maps.{Map}
use xgc_agent.Prelude.Text.{trim_space, decimal, decimal_from, digit}
use xgc_agent.Memory.GraphStore.Query.{
  Query, is_word_char, all_word_chars, valid_relationship_type, all_valid, rel_filter, join_with,
  relationship_text, related_text, relationship_head, relationship_tail, related_head, related_tail,
  add_relationship_query, find_related_query, or_default, check_entity,
}

-- No quote of any kind, no semicolon, no backslash and no end of a line.
abbrev pub is_quiet : ℕ → Bool
is_quiet c = not (c == 39 || (c == 34 || (c == 96 || (c == 59 || (c == 92 || c == 10)))))

abbrev pub all_quiet : String → Bool
all_quiet end = true
all_quiet (c then s) = is_quiet (code c) && all_quiet s

all_quiet-append :
    (s t : String) → all_quiet s ≡ true → all_quiet t ≡ true → all_quiet (s ++ t) ≡ true
all_quiet-append end t h k = ap all_quiet (append.nil t) ∙ k
all_quiet-append (c then s) t h k =
    ap all_quiet (append.cons c s t) ∙ ground (arith, all_quiet-append s t)

is_word_char-quiet : (c : ℕ) → is_word_char c ≡ true → is_quiet c ≡ true
unfolding is_word_char
is_word_char-quiet c h = ground arith

all_word_chars-quiet : (s : String) → all_word_chars s ≡ true → all_quiet s ≡ true
unfolding all_word_chars
all_word_chars-quiet end h = refl
all_word_chars-quiet (c then s) h =
    ground (arith, all_word_chars-quiet s, is_word_char-quiet (code c))

valid-quiet : (s : String) → valid_relationship_type s ≡ true → all_quiet s ≡ true
unfolding valid_relationship_type
valid-quiet s h = all_word_chars-quiet s (ground arith)

join_with-quiet :
    (types : List String) → all_valid types ≡ true → all_quiet (join_with "|" types) ≡ true
unfolding join_with all_valid
join_with-quiet [] h = refl
join_with-quiet (x ∷ []) h = valid-quiet x (ground arith)
join_with-quiet (x ∷ y ∷ xs) h =
    all_quiet-append x ("|" ++ join_with "|" (y ∷ xs)) (valid-quiet x (ground arith))
      (all_quiet-append "|" (join_with "|" (y ∷ xs)) refl (join_with-quiet (y ∷ xs) (ground arith)))

rel_filter-quiet :
    (types : List String) → all_valid types ≡ true → all_quiet (rel_filter types) ≡ true
unfolding rel_filter
rel_filter-quiet [] h = refl
rel_filter-quiet (t ∷ types) h =
    all_quiet-append ":" (join_with "|" (t ∷ types)) refl (join_with-quiet (t ∷ types) h)

digit-quiet : (n : ℕ) → all_quiet (digit n) ≡ true
unfolding digit
digit-quiet zero = refl
digit-quiet (suc zero) = refl
digit-quiet (suc (suc zero)) = refl
digit-quiet (suc (suc (suc zero))) = refl
digit-quiet (suc (suc (suc (suc zero)))) = refl
digit-quiet (suc (suc (suc (suc (suc zero))))) = refl
digit-quiet (suc (suc (suc (suc (suc (suc zero)))))) = refl
digit-quiet (suc (suc (suc (suc (suc (suc (suc zero))))))) = refl
digit-quiet (suc (suc (suc (suc (suc (suc (suc (suc zero)))))))) = refl
digit-quiet (suc (suc (suc (suc (suc (suc (suc (suc (suc n))))))))) = refl

decimal_from-quiet : (fuel n : ℕ) → all_quiet (decimal_from fuel n) ≡ true
unfolding decimal_from
decimal_from-quiet zero n = digit-quiet n
decimal_from-quiet (suc f) n = elim (Bool-cases (ltb n 10)) [
  | inl e ↦ rw e (digit-quiet n)
  | inr e ↦ rw e (
      all_quiet-append (decimal_from f (n / 10)) (digit (n % 10)) (decimal_from-quiet f (n / 10))
        (digit-quiet (n % 10)))
]

decimal-quiet : (n : ℕ) → all_quiet (decimal n) ≡ true
unfolding decimal
decimal-quiet n = decimal_from-quiet n n

-- A query that was made, if it was, has a quiet text.
abbrev pub IsQuiet : {Any E : Type 0} → E ⊎ Query Any → Type 0
IsQuiet (inl e) = Unit
IsQuiet (inr q) = all_quiet q.text ≡ true

if-IsQuiet :
    {Any E : Type 0} (b : Bool) (x y : E ⊎ Query Any)
    → IsQuiet x
    → (b ≡ false → IsQuiet y)
    → IsQuiet (if b then x else y)
if-IsQuiet true x y h k = h
if-IsQuiet false x y h k = k refl

relationship_text-quiet :
    (t : String) → valid_relationship_type t ≡ true → all_quiet (relationship_text t) ≡ true
unfolding relationship_text
relationship_text-quiet t h =
    all_quiet-append relationship_head (t ++ relationship_tail) refl
      (all_quiet-append t relationship_tail (valid-quiet t h) refl)

related_text-quiet :
    (types : List String) (n : ℕ) → all_valid types ≡ true → all_quiet (related_text types n) ≡ true
unfolding related_text
related_text-quiet types n h =
    let tail = decimal n ++ related_tail in
    all_quiet-append related_head (rel_filter types ++ "*1.." ++ tail) refl (
      all_quiet-append (rel_filter types) ("*1.." ++ tail) (rel_filter-quiet types h) (
        all_quiet-append "*1.." tail refl
          (all_quiet-append (decimal n) related_tail (decimal-quiet n) refl)))

module _ {Any : Type 0} (of_string : String → Any) (of_time : ℕ → Any) where
  not_valid : (b : Bool) → not b ≡ false → b ≡ true
  not_valid true h = refl
  not_valid false h = cc

  add-IsQuiet :
      (now : ℕ) (user_id from_id to_id relationship_type : String) (props : Map String Any)
      → IsQuiet (
          add_relationship_query of_string of_time now user_id from_id to_id relationship_type
            props)
  unfolding add_relationship_query
  add-IsQuiet now user_id from_id to_id t props = if-IsQuiet (trim_space user_id =? "") _ _ tt (λ a.
      if-IsQuiet (trim_space from_id =? "") _ _ tt (λ b.
        if-IsQuiet (trim_space to_id =? "") _ _ tt (λ c.
          if-IsQuiet (not (valid_relationship_type t)) _ _ tt
            (λ d. relationship_text-quiet t (not_valid (valid_relationship_type t) d)))))

  checked-IsQuiet :
      {E : Type 0} (o : Option E) (y : E ⊎ Query Any)
      → IsQuiet y
      → IsQuiet {Any = Any} (elim o [ none ↦ y | some e ↦ inl e ])
  checked-IsQuiet none y h = h
  checked-IsQuiet (some e) y h = tt

  related-IsQuiet :
      (user_id entity_id : String) (types : List String) (max_depth limit : ℤ)
      → IsQuiet (find_related_query {Any = Any} user_id entity_id types max_depth limit)
  unfolding find_related_query
  related-IsQuiet user_id entity_id types max_depth limit =
      checked-IsQuiet (check_entity user_id entity_id) _ (
        if-IsQuiet (not (all_valid types)) _ _ tt
          (λ d. related_text-quiet types (or_default 2 max_depth) (not_valid (all_valid types) d)))

  -- Whatever relationship types a caller gives, the text of the query that AddRelationship or
  -- FindRelatedEntities makes has no quote of any kind, no semicolon, no backslash and no end of a
  -- line.
  pub relationship_queries-IsQuiet :
      (now : ℕ) (user_id from_id to_id : String) (types : List String) (relationship_type : String)
      (props : Map String Any) (max_depth limit : ℤ)
      → IsQuiet (
          add_relationship_query of_string of_time now user_id from_id to_id relationship_type
            props)
        × IsQuiet (find_related_query {Any = Any} user_id from_id types max_depth limit)
  relationship_queries-IsQuiet now user_id from_id to_id types relationship_type props max_depth
        limit =
      (
        add-IsQuiet now user_id from_id to_id relationship_type props,
        related-IsQuiet user_id from_id types max_depth limit,
      )
