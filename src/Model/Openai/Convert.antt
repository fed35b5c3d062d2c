-- ===== src/Model/Openai/Convert.antt =====
-- The messages, tools and settings of a request: ConvertToOpenAIMessages, ConvertToOpenAITools and
-- ConvertToOpenAIRequest. `text_of` is Go's `string` of bytes.
use xgc_agent.Prelude.{ℕ, String, Option, none, some, List, [], ◌∷◌, if◌then◌else◌, ◌=?◌, string_eq}
use xgc_agent.Prelude.Int.{ℤ}
use xgc_agent.Message.{Message, ToolCall, role_system, role_assistant, role_tool}
use xgc_agent.Message.Response.{Request}
use xgc_agent.Tools.Registry.{BaseTool}
use xgc_agent.Model.Openai.Content.{
  ContentParam, PartParam, convert_text_content, convert_user_message_content,
}

pub record ToolCallParam : Type 0 where
  pub id : String
  pub name : String
  pub arguments : String

pub data MessageParam : Type 0 where
  of_user : ContentParam PartParam → MessageParam
  of_system : ContentParam String → MessageParam
  of_assistant : ContentParam String → List ToolCallParam → MessageParam
  -- The content and the id of the call.
  of_tool : String → String → MessageParam

pub record ToolParam (Params : Type 0) : Type 0 where
  pub name : String
  pub description : String
  pub parameters : Params

pub record ChatParams (Params : Type 0) : Type 0 where
  pub model : String
  pub messages : List MessageParam
  pub tools : List (ToolParam Params)
  pub temperature : Option ℕ
  pub max_tokens : Option ℤ
  pub top_p : Option ℕ
  pub stop : Option String

module _ {Any : Type 0} (text_of : List ℕ → String) where
  unfoldable pub convert_tool_calls : List (ToolCall Any) → List ToolCallParam
  convert_tool_calls [] = []
  convert_tool_calls (tc ∷ calls) =
      record {
        id = tc.id;
        name = tc.tool_definition.name;
        arguments = text_of tc.tool_definition.parameters;
      }
      ∷ convert_tool_calls calls

module _ {Any : Type 0} (encode64 : List ℕ → String) (text_of : List ℕ → String) where
  -- The switch of the loop; a role that is not known is a user's.
  unfoldable pub convert_message : Message Any → MessageParam
  convert_message msg =
      if msg.role =? role_system
      then of_system (convert_text_content msg)
      else if msg.role =? role_assistant
      then of_assistant (convert_text_content msg) (convert_tool_calls text_of msg.tool_calls)
      else if msg.role =? role_tool
      then of_tool msg.content msg.tool_id
      else of_user (convert_user_message_content encode64 msg)

  unfoldable pub convert_to_openai_messages : List (Message Any) → List MessageParam
  convert_to_openai_messages [] = []
  convert_to_openai_messages (msg ∷ msgs) = convert_message msg ∷ convert_to_openai_messages msgs

-- `to_parameters` writes the schema as JSON and reads it as the library's parameters; a tool for
-- which this fails is left out. The list has the tools in the order of the loop over the map.
unfoldable pub convert_to_openai_tools :
    {Schema Params : Type 0}
    → (Schema → Option Params)
    → List (String × BaseTool Schema)
    → List (ToolParam Params)
convert_to_openai_tools to_parameters [] = []
convert_to_openai_tools to_parameters ((k, t) ∷ tools) =
    let rest = convert_to_openai_tools to_parameters tools in
    elim (to_parameters t.schema) [
      | none ↦ rest
      | some params ↦
          record { name = t.name; description = t.description; parameters = params } ∷ rest
    ]

abbrev pub first : List String → Option String
first [] = none
first (s ∷ ss) = some s

unfoldable pub convert_to_openai_request :
    {Any Schema Params : Type 0}
    → (List ℕ → String)
    → (List ℕ → String)
    → (Schema → Option Params)
    → String
    → Request Any (BaseTool Schema)
    → ChatParams Params
convert_to_openai_request encode64 text_of to_parameters model req = record {
  model = model;
  messages = convert_to_openai_messages encode64 text_of req.messages;
  tools = convert_to_openai_tools to_parameters req.tools;
  temperature = req.config.temperature;
  max_tokens = req.config.max_tokens;
  top_p = req.config.top_p;
  stop = first req.config.stop;
}
