-- ===== src/Memory/Item/Id.antt =====
-- Neither the order of the topics nor that of the metadata matters to an id.
use mathlib.Core.List.{Perm}
use Prim.Native.String.{◌++◌}
use xgc_agent.Prelude.{
  suc, ◌≡◌, refl, sym, ap, ap₂, ◌∙◌, String, List, [], ◌∷◌, map, if◌then◌else◌, length, ◌==◌,
  string_eq,
}
use xgc_agent.Prelude.Maps.{Map, lookup}
use xgc_agent.Prelude.Sort.{sort, sort-Perm, length-sort}
use xgc_agent.Prelude.Text.{before, before_asym, before_trans, before_antisym, String-IsSet}
use xgc_agent.Memory.Item.{
  Memory, printed, metadata_text, topics_text, memory_text, generate_memory_id, join,
}

sort-texts : {xs ys : List String} → Perm xs ys → sort before xs ≡ sort before ys
sort-texts p = sort-Perm before before_asym before_trans before_antisym String-IsSet p

length-Perm : {xs ys : List String} → Perm xs ys → length xs ≡ length ys
length-Perm {xs} {ys} p =
    sym (length-sort before xs) ∙ ap length (sort-texts p) ∙ length-sort before ys

topics_text-Perm : {xs ys : List String} → Perm xs ys → topics_text xs ≡ topics_text ys
unfolding topics_text
topics_text-Perm p =
    ap₂ (λ n sorted. if n == 0 then "" else "|topics:" ++ join sorted) (length-Perm p)
      (sort-texts p)

module _ {Any : Type 0} where
  -- A map's keys, in the order of a loop over it.
  abbrev pub keys : Map String Any → List String
  keys m = map (λ e. e.0) m

  length-keys : (m : Map String Any) → length (keys m) ≡ length m
  length-keys [] = refl
  length-keys (x ∷ m) = ap suc (length-keys m)

  metadata_text-lookup :
      (print : Any → String) (m n : Map String Any) (ks : List String)
      → ((k : String) → lookup k m ≡ lookup k n)
      → metadata_text print m ks ≡ metadata_text print n ks
  unfolding metadata_text
  metadata_text-lookup print m n [] h = refl
  metadata_text-lookup print m n (k ∷ ks) h =
      ap₂ (λ v rest. k ++ "=" ++ printed print v ++ "," ++ rest) (h k)
        (metadata_text-lookup print m n ks h)

  -- Two memories of the same content, the same topics in any order and the same metadata in any order
  -- have the same id for the same user, whatever the hash is and however values are printed.
  pub generate_memory_id-Perm :
      (print : Any → String) (sha256 : String → String) (a b : Memory Any) (user_id : String)
      → a.content ≡ b.content
      → Perm a.topics b.topics
      → Perm (keys a.metadata) (keys b.metadata)
      → ((k : String) → lookup k a.metadata ≡ lookup k b.metadata)
      → generate_memory_id print sha256 a user_id ≡ generate_memory_id print sha256 b user_id
  unfolding generate_memory_id memory_text
  generate_memory_id-Perm print sha256 a b user_id same topics ks values = ap sha256 (
      ap₂ (λ front back. "memory:" ++ front ++ back ++ "|user:" ++ user_id)
        (ap₂ ◌++◌ same (topics_text-Perm topics)) metadata)
    where
      sized : length a.metadata ≡ length b.metadata
      sized = sym (length-keys a.metadata) ∙ length-Perm ks ∙ length-keys b.metadata

      metadata :
          (if length a.metadata == 0
            then ""
            else "|metadata:" ++ metadata_text print a.metadata (sort before (keys a.metadata)))
          ≡ (if length b.metadata == 0
              then ""
              else "|metadata:" ++ metadata_text print b.metadata (sort before (keys b.metadata)))
      metadata =
          ap₂ (λ n t. if n == 0 then "" else "|metadata:" ++ t) sized
            (ap (metadata_text print a.metadata) (sort-texts ks)
              ∙ metadata_text-lookup print a.metadata b.metadata (sort before (keys b.metadata))
                  values)
