-- ===== src/Model/Openai/Calls.antt =====
-- The message of a completion, sent back in a later request.
use xgc_agent.Prelude.{
  ◌≡◌, refl, ap, ap₂, ℕ, String, List, [], ◌∷◌, if◌then◌else◌, ◌=?◌, string_eq, arith, All,
}
use xgc_agent.Model.Openai.Content.{
  ContentParam, of_string, of_parts, is_plain, content_first, text_parts, convert_text_content,
}
use xgc_agent.Model.Openai.Convert.{
  ToolCallParam, of_assistant, convert_tool_calls, convert_message,
}
use xgc_agent.Model.Openai.Reply.{
  CompletionCall, CompletionChoice, new_call, new_calls, choice_message,
}

-- The call as the service gave it.
abbrev pub same_call : CompletionCall → ToolCallParam
same_call tc = record { id = tc.id; name = tc.name; arguments = tc.arguments }

abbrev pub same_calls : List CompletionCall → List ToolCallParam
same_calls [] = []
same_calls (tc ∷ calls) = same_call tc ∷ same_calls calls

-- The content as one text, or no parts where it is empty.
abbrev pub same_content : String → ContentParam String
same_content content = if content =? "" then of_parts [] else of_string content

-- The arguments of a call are the text of their bytes.
abbrev pub KeepsArguments : (List ℕ → String) → (String → List ℕ) → CompletionCall → Type 0
KeepsArguments text_of bytes_of tc = text_of (bytes_of tc.arguments) ≡ tc.arguments

module _ (Any : Type 0) (encode64 : List ℕ → String) (text_of : List ℕ → String)
    (bytes_of : String → List ℕ) where
  calls_lem :
      (calls : List CompletionCall)
      → All (KeepsArguments text_of bytes_of) calls
      → convert_tool_calls {Any = Any} text_of (new_calls bytes_of calls) ≡ same_calls calls
  unfolding convert_tool_calls new_calls new_call
  calls_lem [] h = refl
  calls_lem (tc ∷ calls) h =
      ap₂ (λ (c : ToolCallParam) cs. c ∷ cs) (ap (λ a. record (same_call tc) { arguments = a }) h.0)
        (calls_lem calls h.1)

  content_lem :
      (choice : CompletionChoice)
      → convert_text_content (choice_message {Any = Any} bytes_of choice)
        ≡ same_content choice.content
  unfolding choice_message convert_text_content is_plain content_first text_parts
  content_lem choice = ground arith

  -- Where the arguments of a choice's calls are the text of their bytes, the message that is made
  -- of the choice goes back to the service as the assistant's, with the same content and the same
  -- calls: their ids, names and arguments, in order.
  pub convert_message-choice_message :
      (choice : CompletionChoice)
      → All (KeepsArguments text_of bytes_of) choice.tool_calls
      → convert_message encode64 text_of (choice_message {Any = Any} bytes_of choice)
        ≡ of_assistant (same_content choice.content) (same_calls choice.tool_calls)
  unfolding convert_message choice_message
  convert_message-choice_message choice h =
      ap₂ of_assistant (content_lem choice) (calls_lem choice.tool_calls h)
