-- ===== src/Message.antt =====
-- The messages of a chat: message/message.go. `Any` stands for the values of Go's `any`, a
-- `float32` is its bits, and a `[]byte` the list of its bytes.
pub mod Response
use xgc_agent.Prelude.{ℕ, String, List, [], Option}

abbrev pub role_system : String
role_system = "system"

abbrev pub role_user : String
role_user = "user"

abbrev pub role_assistant : String
role_assistant = "assistant"

abbrev pub role_tool : String
role_tool = "tool"

pub record Image : Type 0 where
  pub url : String
  pub data_of : List ℕ
  pub alt_text : String
  pub detail : String
  pub format : String

-- `Audio` and `Video` have the same fields.
pub record Clip : Type 0 where
  pub url : String
  pub data_of : List ℕ
  pub format : String
  pub duration : ℕ

pub record File : Type 0 where
  pub filename : String
  pub data_of : List ℕ
  pub file_id : String
  pub mime_type : String

pub record ContentPart : Type 0 where
  pub content_type : String
  pub text : Option String
  pub image : Option Image
  pub audio : Option Clip
  pub video : Option Clip
  pub file : Option File

pub record ToolDefinition : Type 0 where
  pub tool_type : ℕ
  pub name : String
  pub description : String
  pub parameters : List ℕ

pub record ToolCall (Any : Type 0) : Type 0 where
  pub id : String
  pub tool_definition : ToolDefinition
  pub position : Option ℕ
  pub extra : List (String × Any)

pub record Message (Any : Type 0) : Type 0 where
  pub role : String
  pub content : String
  pub content_parts : List ContentPart
  pub tool_calls : List (ToolCall Any)
  pub tool_id : String
  pub tool_name : String

abbrev pub new_message : {Any : Type 0} → String → String → Message Any
new_message role content = record {
  role = role;
  content = content;
  content_parts = [];
  tool_calls = [];
  tool_id = "";
  tool_name = "";
}

abbrev pub message_user : {Any : Type 0} → String → Message Any
message_user content = new_message role_user content

abbrev pub message_assistant : {Any : Type 0} → String → Message Any
message_assistant content = new_message role_assistant content

abbrev pub message_tool : {Any : Type 0} → String → String → String → Message Any
message_tool tool_id tool_name content = record (new_message role_tool content) {
  tool_id = tool_id;
  tool_name = tool_name;
}
