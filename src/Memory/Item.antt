-- ===== src/Memory/Item.antt =====
-- The memory items of memory/base.go, their errors, and their ids from memory/util.go. `Any` stands
-- for the values of Go's `any`; a time is a number whose zero value is 0, and a float is its bits.
pub mod Id
use Prim.Native.String.{◌++◌}
use xgc_agent.Prelude.{
  ℕ, String, Bool, true, false, Option, none, some, List, [], ◌∷◌, map, if◌then◌else◌, ltb, length,
  ◌==◌, ◌=?◌, string_eq,
}
use xgc_agent.Prelude.Int.{ℤ}
use xgc_agent.Prelude.Maps.{Map, lookup}
use xgc_agent.Prelude.Sort.{sort}
use xgc_agent.Prelude.Text.{before}

pub data MemoryType : Type 0 where
  untyped short_term episodic semantic : MemoryType

pub record Memory (Any : Type 0) : Type 0 where
  pub content : String
  pub topics : List String
  pub metadata : Map String Any

pub record MemoryItem (Any : Type 0) : Type 0 where
  pub memory_id : String
  pub user_id : String
  pub session_id : String
  pub memory_type : MemoryType
  pub memory : Option (Memory Any)
  pub created_at : ℕ
  pub updated_at : ℕ
  pub expires_at : Option ℕ
  pub embedding : List ℕ
  pub score : ℕ
  pub confidence : ℕ

pub data Error : Type 0 where
  not_found invalid_id invalid_session_id user_id_required memory_id_required : Error
  store_manager_nil search_not_supported memory_limit_exceeded : Error

pub record ListOptions : Type 0 where
  pub limit : ℤ
  pub since : Option ℕ
  pub until : Option ℕ
  pub include_expired : Bool

-- `strings.Join(sorted, ",")`
unfoldable pub join : List String → String
join [] = ""
join (x ∷ []) = x
join (x ∷ y ∷ xs) = x ++ "," ++ join (y ∷ xs)

unfoldable pub topics_text : List String → String
topics_text topics = if length topics == 0 then "" else "|topics:" ++ join (sort before topics)

module _ {Any : Type 0} where
  unfoldable pub is_expired : ℕ → MemoryItem Any → Bool
  is_expired now item = elim item.expires_at [ none ↦ false | some t ↦ ltb t now ]

  -- `print` is `fmt.Sprintf("%v", …)`. The program prints a value of the map only, so the text of a
  -- missing one is not used.
  unfoldable pub printed : (Any → String) → Option Any → String
  printed print none = "<nil>"
  printed print (some v) = print v

  unfoldable pub metadata_text : (Any → String) → Map String Any → List String → String
  metadata_text print metadata [] = ""
  metadata_text print metadata (k ∷ keys) =
      k ++ "=" ++ printed print (lookup k metadata) ++ "," ++ metadata_text print metadata keys

  -- The text that is hashed.
  unfoldable pub memory_text : (Any → String) → Memory Any → String → String
  memory_text print mem user_id =
      "memory:"
      ++ (mem.content ++ topics_text mem.topics)
      ++ (if length mem.metadata == 0
          then ""
          else "|metadata:"
            ++ metadata_text print mem.metadata (sort before (map (λ e. e.0) mem.metadata)))
      ++ "|user:"
      ++ user_id

  -- `sha256` gives the hexadecimal digits of the hash.
  unfoldable pub generate_memory_id :
      (Any → String) → (String → String) → Memory Any → String → String
  generate_memory_id print sha256 mem user_id = sha256 (memory_text print mem user_id)

  -- `CreateMemoryItem`, at the time `now`.
  unfoldable pub create_memory_item :
      (Any → String)
      → (String → String)
      → ℕ
      → String
      → String
      → List String
      → Map String Any
      → MemoryItem Any
  unfolding generate_memory_id
  create_memory_item print sha256 now user_id content topics metadata =
      let mem : Memory Any = record { content = content; topics = topics; metadata = metadata } in
      record {
        memory_id = generate_memory_id print sha256 mem user_id;
        user_id = user_id;
        session_id = "";
        memory_type = untyped;
        memory = some mem;
        created_at = now;
        updated_at = now;
        expires_at = none;
        embedding = [];
        score = 0;
        confidence = 0;
      }

pub record MemoryKey : Type 0 where
  pub memory_id : String
  pub user_id : String
  pub session_id : String

-- `MemoryKey.Validate`
unfoldable pub validate_key : MemoryKey → Option Error
validate_key k =
    if k.user_id =? ""
    then some user_id_required
    else if k.memory_id =? ""
    then some memory_id_required
    else none
