-- ===== src/Model/Openai/Tests.antt =====
-- Concrete requests, responses and streams.
use xgc_agent.Prelude.{
  ℕ, ◌≡◌, refl, String, none, some, Option, List, [], ◌∷◌, ◌++◌, map, take, get_elem?,
}
use xgc_agent.Prelude.Maps.{lookup, insert}
use xgc_agent.Message.{Message, ContentPart, message_user, ToolCall}
use xgc_agent.Model.Openai.Content.{
  of_text, of_image_url, of_parts, is_plain, content_first, convert_text, convert_image,
  convert_content_part, add_part, convert_parts, convert_user_message_content,
  image_to_url_or_base64,
}
use xgc_agent.Model.Openai.Convert.{of_user, convert_message, convert_to_openai_messages}
use xgc_agent.Model.Openai.Reply.{Completion, CompletionChoice}
use xgc_agent.Model.Openai.Chunks.{
  finished, Chunk, mapping, update_with, update_choice, update_choices,
  update_tool_call_index_mapping, call_index, generate_tool_calls, stream,
}
use xgc_agent.Model.Openai.Reply.{new_call}
use xgc_agent.Model.Openai.Texts.{
  param_role, param_texts, sent_role, message_texts, convert_to_openai_messages_lem,
}
use xgc_agent.Model.Openai.Indices.{mapped, generate_tool_calls-announced}
use xgc_agent.Model.Openai.Delivery.{to_list, last, stream_lem}
use xgc_agent.Model.Openai.Sent.{partials}

abbrev part : String → Option String → ContentPart
part kind text = record {
  content_type = kind;
  text = text;
  image = some (record { url = "u"; data_of = []; alt_text = ""; detail = "low"; format = "png" });
  audio = none;
  video = none;
  file = none;
}

-- A question with a text, an image and a video, which is left out.
abbrev question : Message ℕ
question = record (message_user "what?") {
  content_parts = part "text" (some "see") ∷ part "image" none ∷ part "video" none ∷ [];
}

abbrev encode64 : List ℕ → String
encode64 bytes = ""

asked :
    convert_message encode64 encode64 question
    ≡ of_user (of_parts (of_text "what?" ∷ of_text "see" ∷ of_image_url "u" "low" ∷ []))
unfolding convert_message convert_user_message_content is_plain content_first convert_parts add_part
    convert_content_part convert_text convert_image image_to_url_or_base64
asked = refl

convert_to_openai_messages_lem_example :
    map {B = String × List String}
      (λ p. (param_role p, param_texts p))
      (convert_to_openai_messages encode64 encode64 (question ∷ []))
    ≡ map {B = String × List String} (λ m. (sent_role m, message_texts m)) (question ∷ [])
convert_to_openai_messages_lem_example =
    convert_to_openai_messages_lem encode64 encode64 (question ∷ [])

abbrev choice : CompletionChoice
choice = record {
  position = 0;
  content = "let me see";
  tool_calls =
      record { id = "c"; name = "calc"; arguments = "" }
      ∷ record { id = "d"; name = "calc"; arguments = "" }
      ∷ [];
  finish_reason = "tool_calls";
}

-- The deltas announce d before c.
abbrev chunk : ℕ → String → Chunk
chunk position id = record {
  id = "r";
  model = "m";
  choices =
      record {
        position = 0;
        content = "";
        tool_calls = record { position = position; id = id } ∷ [];
        finish_reason = "";
      }
      ∷ [];
}

abbrev three_chunks : List Chunk
three_chunks = chunk 0 "d" ∷ chunk 1 "c" ∷ chunk 1 "" ∷ []

abbrev no_bytes : String → List ℕ
no_bytes text = []

abbrev call : ToolCall ℕ
call = record {
  id = "d";
  tool_definition = record { tool_type = 0; name = "calc"; description = ""; parameters = [] };
  position = some 0;
  extra = [];
}

second :
    get_elem?
      (generate_tool_calls no_bytes 0 choice.tool_calls (mapping 0 (mapped three_chunks [])))
      1
    ≡ some call
unfolding generate_tool_calls mapping update_with update_choice update_choices
    update_tool_call_index_mapping call_index new_call lookup insert
second = refl

generate_tool_calls-announced_example : call.position ≡ some 0
generate_tool_calls-announced_example =
    generate_tool_calls-announced no_bytes three_chunks 0 choice.tool_calls 1 call 0 second refl
      refl

abbrev accumulate : List Chunk → Completion
accumulate chunks = record {
  id = "r";
  model = "m";
  choices = choice ∷ [];
  usage = record { prompt_tokens = 1; completion_tokens = 1; total_tokens = 2 };
}

abbrev timed : List (ℕ × Chunk)
timed = (1, chunk 0 "d") ∷ (2, chunk 1 "c") ∷ []

stream_lem_example :
    stream {Any = ℕ} no_bytes accumulate 3 none 5 timed
    ≡ (take 5 (partials timed ++ to_list (last no_bytes accumulate 3 none timed)), finished)
stream_lem_example = stream_lem no_bytes accumulate 3 none timed 5
