-- ===== src/Memory/Manager.antt =====
-- `MemoryManager` of memory/manager/manager.go, over the two memories and the summarizer, each of
-- which may be missing; and `LLMSummarizer` of memory/manager/summarizer.go. The embedder, which no
-- method uses, is left out. `as_string` is the type assertion of a value to a string.
use xgc_agent.Prelude.{
  String, Option, none, some, List, [], ◌∷◌, ◌⊎◌, inl, inr, if◌then◌else◌, ◌=?◌, string_eq,
}
use xgc_agent.Prelude.Int.{ℤ}
use xgc_agent.Prelude.Maps.{Map, lookup}
use xgc_agent.Message.{Message, new_message, role_user, role_system}
use xgc_agent.Memory.Item.{MemoryItem, MemoryType, short_term, semantic}

-- What fails: a call, with its text, or the type assertion.
pub data Failure : Type 0 where
  call_failed : String → Failure
  panics : Failure

-- The operations on the memories and the summarizer, over their states.
pub record Parts (Any S L V : Type 0) : Type 0 where
  pub add_short : MemoryItem Any → S → Option String × S
  pub snapshot : S → (String ⊎ List (MemoryItem Any)) × S
  pub add_long : MemoryItem Any → L → Option String × L
  pub search_long : String → ℤ → L → String ⊎ List (MemoryItem Any)
  pub summarize : List (Message Any) → V → (String ⊎ String) × V
  pub of_string : String → Any
  pub as_string : Any → Option String

pub record MemoryManager (S L V : Type 0) : Type 0 where
  pub short_memory : Option S
  pub long_memory : Option L
  pub summarizer : Option V

unfoldable pub new_item :
    {Any : Type 0} → MemoryType → String → String → List String → Map String Any → MemoryItem Any
new_item memory_type session_id content topics metadata = record {
  memory_id = "";
  user_id = "";
  session_id = session_id;
  memory_type = memory_type;
  memory = some (record { content = content; topics = topics; metadata = metadata });
  created_at = 0;
  updated_at = 0;
  expires_at = none;
  embedding = [];
  score = 0;
  confidence = 0;
}

-- `LLMSummarizer.Summarize`: the model's first choice for the prompt and the messages.
unfoldable pub llm_summarize :
    {Any V : Type 0}
    → String
    → (List (Message Any) → V → (String ⊎ List (Message Any)) × V)
    → List (Message Any)
    → V
    → (String ⊎ String) × V
llm_summarize prompt generate messages v =
    let answer = generate (new_message role_system prompt ∷ messages) v in
    (
      elim answer.0 [
        | inl e ↦ inl e
        | inr choices ↦ inr (elim choices [ [] ↦ "" | c ∷ cs ↦ c.content ])
      ],
      answer.1,
    )

module _ {Any S L V : Type 0} (parts : Parts Any S L V) where
  -- The item that `AddMessage` adds.
  unfoldable pub message_item : String → Message Any → MemoryItem Any
  message_item session_id msg =
      new_item short_term session_id msg.content []
        (("role", parts.of_string msg.role) ∷ ("session_id", parts.of_string session_id) ∷ [])

  unfoldable pub add_message :
      String → Message Any → MemoryManager S L V → Option String × MemoryManager S L V
  add_message session_id msg m = elim m.short_memory [
    | none ↦ (none, m)
    | some s ↦
        let added = parts.add_short (message_item session_id msg) s in
        (added.0, record m { short_memory = some added.1 })
  ]

  unfoldable pub retrieve : String → ℤ → MemoryManager S L V → String ⊎ List (MemoryItem Any)
  retrieve query limit m = elim m.long_memory [
    | none ↦ inr []
    | some l ↦ parts.search_long query limit l
  ]

  unfoldable pub summarize_with :
      List (Message Any) → MemoryManager S L V → (String ⊎ String) × MemoryManager S L V
  summarize_with msgs m = elim m.summarizer [
    | none ↦ (inr "", m)
    | some v ↦
        let answer = parts.summarize msgs v in (answer.0, record m { summarizer = some answer.1 })
  ]

  -- The role of an item, and `none` where the assertion panics.
  unfoldable pub role_of : Map String Any → Option String
  role_of metadata = elim (lookup "role" metadata) [
    | none ↦ some role_user
    | some v ↦ parts.as_string v
  ]

  -- The loop of `Promote`; `none` where it panics.
  unfoldable pub messages_of : List (MemoryItem Any) → Option (List (Message Any))
  messages_of [] = some []
  messages_of (it ∷ items) = elim it.memory [
    | none ↦ messages_of items
    | some memory ↦ elim (role_of memory.metadata) [
      | none ↦ none
      | some role ↦ elim (messages_of items) [
        | none ↦ none
        | some msgs ↦ some (new_message role memory.content ∷ msgs)
      ]
    ]
  ]

  -- The item that `Promote` adds.
  unfoldable pub summary_item : String → String → MemoryItem Any
  summary_item session_id summary =
      new_item semantic session_id summary ("session_summary" ∷ [])
        (("session_id", parts.of_string session_id) ∷ ("source", parts.of_string "promotion") ∷ [])

  -- From the summary on.
  unfoldable pub store_summary :
      String → L → (String ⊎ String) × MemoryManager S L V → Option Failure × MemoryManager S L V
  store_summary session_id l (inl e, m) = (some (call_failed e), m)
  store_summary session_id l (inr summary, m) =
      let added = parts.add_long (summary_item session_id summary) l in
      if summary =? "" then (none, m) else (
        elim added.0 [ none ↦ none | some e ↦ some (call_failed e) ],
        record m { long_memory = some added.1 },
      )

  -- From the messages on; without messages the summarizer is not asked.
  unfoldable pub promote_messages :
      String
      → L
      → Option (List (Message Any))
      → MemoryManager S L V
      → Option Failure × MemoryManager S L V
  promote_messages session_id l none m = (some panics, m)
  promote_messages session_id l (some []) m = (none, m)
  promote_messages session_id l (some (msg ∷ msgs)) m =
      store_summary session_id l (summarize_with (msg ∷ msgs) m)

  unfoldable pub promote_items :
      String
      → L
      → String ⊎ List (MemoryItem Any)
      → MemoryManager S L V
      → Option Failure × MemoryManager S L V
  promote_items session_id l (inl e) m = (some (call_failed e), m)
  promote_items session_id l (inr items) m = promote_messages session_id l (messages_of items) m

  unfoldable pub promote_from :
      String → Option S → Option L → MemoryManager S L V → Option Failure × MemoryManager S L V
  promote_from session_id none l m = (none, m)
  promote_from session_id (some s) none m = (none, m)
  promote_from session_id (some s) (some l) m =
      let taken = parts.snapshot s in
      promote_items session_id l taken.0 (record m { short_memory = some taken.1 })

  unfoldable pub promote : String → MemoryManager S L V → Option Failure × MemoryManager S L V
  promote session_id m = promote_from session_id m.short_memory m.long_memory m
