-- ===== src/Model/Openai/Chunks.antt =====
-- The responses that `Stream` makes of the chunks of a completion, and the indices of the tool
-- calls that the chunks give. What the library's accumulator makes of the chunks is a parameter.
use xgc_agent.Prelude.{
  ℕ, zero, suc, String, Bool, true, false, ◌&&◌, Option, none, some, List, [], ◌∷◌, ◌++◌,
  if◌then◌else◌, ◌=?◌, string_eq, nat_eq,
}
use xgc_agent.Prelude.Maps.{Map, lookup, insert}
use xgc_agent.Message.{ToolCall, new_message, role_assistant}
use xgc_agent.Message.Response.{Response, ResponseChoice, api_error}
use xgc_agent.Model.Openai.Reply.{
  Completion, CompletionChoice, CompletionCall, finish_reason_of, error_response, new_call,
}

pub record ChunkCall : Type 0 where
  pub position : ℕ
  pub id : String

pub record ChunkChoice : Type 0 where
  pub position : ℕ
  pub content : String
  pub tool_calls : List ChunkCall
  pub finish_reason : String

pub record Chunk : Type 0 where
  pub id : String
  pub model : String
  pub choices : List ChunkChoice

-- For each choice, the indices of its tool calls by their ids.
abbrev pub IdMaps : Type 0
IdMaps = Map ℕ (Map String ℕ)

-- `idToIndexMap[choiceIndex].mapping`, which is empty where there is none.
unfoldable pub mapping : ℕ → IdMaps → Map String ℕ
mapping choice ids = elim (lookup choice ids) [ none ↦ [] | some m ↦ m ]

-- Only the first tool call of the delta is looked at.
unfoldable pub update_with : ℕ → List ChunkCall → IdMaps → IdMaps
update_with choice [] ids = ids
update_with choice (call ∷ calls) ids =
    insert choice
      (if call.id =? ""
        then mapping choice ids
        else insert call.id call.position (mapping choice ids))
      ids

unfoldable pub update_choice : ChunkChoice → IdMaps → IdMaps
update_choice ch ids = update_with ch.position ch.tool_calls ids

unfoldable pub update_choices : List ChunkChoice → IdMaps → IdMaps
update_choices [] ids = ids
update_choices (ch ∷ chs) ids = update_choices chs (update_choice ch ids)

unfoldable pub update_tool_call_index_mapping : Chunk → IdMaps → IdMaps
update_tool_call_index_mapping chunk ids = update_choices chunk.choices ids

abbrev pub no_calls : CompletionChoice → Bool
no_calls choice = elim choice.tool_calls [ [] ↦ true | c ∷ cs ↦ false ]

-- The index of a call: the one that is mapped to its id, else its place.
unfoldable pub call_index : ℕ → String → Map String ℕ → ℕ
call_index i id ids = if id =? "" then i else elim (lookup id ids) [ none ↦ i | some j ↦ j ]

module _ {Any : Type 0} (bytes_of : String → List ℕ) where
  -- The loop of `generateToolCalls`, from the place of the next call.
  unfoldable pub generate_tool_calls : ℕ → List CompletionCall → Map String ℕ → List (ToolCall Any)
  generate_tool_calls i [] ids = []
  generate_tool_calls i (tc ∷ calls) ids =
      let rest = generate_tool_calls (suc i) calls ids in
      if tc.name =? "" && tc.id =? ""
      then rest
      else new_call bytes_of (some (call_index i tc.id ids)) tc ∷ rest

  unfoldable pub final_choices : List CompletionChoice → IdMaps → List (ResponseChoice Any)
  final_choices [] ids = []
  final_choices (choice ∷ choices) ids =
      record {
        position = choice.position;
        message = record (new_message role_assistant choice.content) {
          tool_calls = generate_tool_calls 0 choice.tool_calls (mapping choice.position ids);
        };
        finish_reason = none;
      }
      ∷ final_choices choices ids

  -- The last response; `none` where `acc.Choices[0]` panics.
  unfoldable pub final_response : ℕ → Completion → IdMaps → Option (Response Any)
  final_response now acc ids = elim acc.choices [
    | [] ↦ none
    | c ∷ cs ↦ some (record {
      id = acc.id;
      model = acc.model;
      choices = final_choices (c ∷ cs) ids;
      usage = some acc.usage;
      error = none;
      time = now;
      done = no_calls c;
      is_partial = false;
    })
  ]

module _ {Any : Type 0} where
  unfoldable pub partial_choices : ℕ → List ChunkChoice → List (ResponseChoice Any)
  partial_choices i [] = []
  partial_choices i (choice ∷ choices) =
      record {
        position = i;
        message = new_message role_assistant choice.content;
        finish_reason = finish_reason_of choice.finish_reason;
      }
      ∷ partial_choices (suc i) choices

  unfoldable pub create_partial_response : ℕ → Chunk → Response Any
  create_partial_response now chunk = record {
    id = chunk.id;
    model = chunk.model;
    choices = partial_choices 0 chunk.choices;
    usage = none;
    error = none;
    time = now;
    done = false;
    is_partial = true;
  }

-- How the goroutine of `Stream` ends.
pub data StreamEnd : Type 0 where
  finished context_done panicked : StreamEnd

-- The last send, which the context may stop.
unfoldable pub send_last :
    {Any : Type 0} → ℕ → Option (Response Any) → List (Response Any) × StreamEnd
send_last sends none = ([], panicked)
send_last zero (some r) = ([], context_done)
send_last (suc sends) (some r) = (r ∷ [], finished)

-- The goroutine, with the responses that it sends. The context is done after so many sends; each
-- chunk has the time at which it comes; `ended` is the error of the library's stream, if any.
module _ {Any : Type 0} (bytes_of : String → List ℕ) (accumulate : List Chunk → Completion)
    (now : ℕ) (ended : Option String) where
  -- The response after the loop.
  unfoldable pub last_response : List Chunk → IdMaps → Option (Response Any)
  last_response seen ids = elim ended [
    | none ↦ final_response bytes_of now (accumulate seen) ids
    | some e ↦ some (error_response e api_error now true)
  ]

  unfoldable pub stream_loop :
      ℕ → List (ℕ × Chunk) → List Chunk → IdMaps → List (Response Any) × StreamEnd
  stream_loop sends [] seen ids = send_last sends (last_response seen ids)
  stream_loop zero ((time, chunk) ∷ chunks) seen ids = ([], context_done)
  stream_loop (suc sends) ((time, chunk) ∷ chunks) seen ids =
      let rest =
        stream_loop sends chunks (seen ++ chunk ∷ []) (update_tool_call_index_mapping chunk ids) in
      (create_partial_response time chunk ∷ rest.0, rest.1)

  unfoldable pub stream : ℕ → List (ℕ × Chunk) → List (Response Any) × StreamEnd
  stream sends chunks = stream_loop sends chunks [] []
