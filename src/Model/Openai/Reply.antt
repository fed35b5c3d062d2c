-- ===== src/Model/Openai/Reply.antt =====
-- The response that `Generater` makes of a completion. `bytes_of` is Go's conversion of a string to
-- bytes, and `now` the time at which the response is made. The options of the call are not read by
-- the code.
use xgc_agent.Prelude.{
  ℕ, suc, String, Bool, true, false, ◌||◌, Option, none, some, List, [], ◌∷◌, ◌⊎◌, inl, inr,
  if◌then◌else◌, ltb, ◌=?◌, string_eq,
}
use xgc_agent.Message.{Message, ToolCall, new_message, role_assistant}
use xgc_agent.Message.Response.{Response, ResponseChoice, Request, Usage, api_error, no_responding}
use xgc_agent.Tools.Registry.{BaseTool}
use xgc_agent.Model.Openai.Convert.{ChatParams, convert_to_openai_request}

pub record CompletionCall : Type 0 where
  pub id : String
  pub name : String
  pub arguments : String

pub record CompletionChoice : Type 0 where
  pub position : ℕ
  pub content : String
  pub tool_calls : List CompletionCall
  pub finish_reason : String

pub record Completion : Type 0 where
  pub id : String
  pub model : String
  pub choices : List CompletionChoice
  pub usage : Usage

pub data Error : Type 0 where
  nil_request : Error
  service_failed : String → Error

unfoldable pub finish_reason_of : String → Option String
finish_reason_of reason = if reason =? "" then none else some reason

unfoldable pub usage_of : Usage → Option Usage
usage_of u = if ltb 0 u.prompt_tokens || ltb 0 u.completion_tokens then some u else none

-- A response with an error and no choices.
unfoldable pub error_response : {Any : Type 0} → String → String → ℕ → Bool → Response Any
error_response text kind time done = record {
  id = "";
  model = "";
  choices = [];
  usage = none;
  error = some (record { message = text; error_type = kind });
  time = time;
  done = done;
  is_partial = false;
}

module _ {Any : Type 0} (bytes_of : String → List ℕ) where
  unfoldable pub new_call : Option ℕ → CompletionCall → ToolCall Any
  new_call position tc = record {
    id = tc.id;
    tool_definition = record {
      tool_type = 0;
      name = tc.name;
      description = "";
      parameters = bytes_of tc.arguments;
    };
    position = position;
    extra = [];
  }

  unfoldable pub new_calls : List CompletionCall → List (ToolCall Any)
  new_calls [] = []
  new_calls (tc ∷ calls) = new_call none tc ∷ new_calls calls

  unfoldable pub choice_message : CompletionChoice → Message Any
  choice_message choice = record (new_message role_assistant choice.content) {
    tool_calls = new_calls choice.tool_calls;
  }

  -- The loop over the choices, from the index of the next one.
  unfoldable pub response_choices : ℕ → List CompletionChoice → List (ResponseChoice Any)
  response_choices i [] = []
  response_choices i (choice ∷ choices) =
      record {
        position = i;
        message = choice_message choice;
        finish_reason = finish_reason_of choice.finish_reason;
      }
      ∷ response_choices (suc i) choices

  -- From the test of the number of choices on. The response without choices has no time.
  unfoldable pub respond_with :
      ℕ → Completion → List CompletionChoice → Option (Response Any) × Option Error
  respond_with now completion [] =
      (some (error_response "no choices returned from OpenAI" no_responding 0 false), none)
  respond_with now completion (c ∷ cs) = (
    some (record {
      id = completion.id;
      model = completion.model;
      choices = response_choices 0 (c ∷ cs);
      usage = usage_of completion.usage;
      error = none;
      time = now;
      done = true;
      is_partial = false;
    }),
    none,
  )

  -- What `Generater` returns, from the answer of the service on.
  unfoldable pub respond : ℕ → String ⊎ Completion → Option (Response Any) × Option Error
  respond now (inl e) = (some (error_response e api_error now true), some (service_failed e))
  respond now (inr completion) = respond_with now completion completion.choices

-- `complete` is the call of the service.
unfoldable pub generater :
    {Any Schema Params : Type 0}
    → (List ℕ → String)
    → (List ℕ → String)
    → (String → List ℕ)
    → (Schema → Option Params)
    → (ChatParams Params → String ⊎ Completion)
    → ℕ
    → String
    → Option (Request Any (BaseTool Schema))
    → Option (Response Any) × Option Error
generater encode64 text_of bytes_of to_parameters complete now model none = (none, some nil_request)
generater encode64 text_of bytes_of to_parameters complete now model (some req) =
    respond bytes_of now
      (complete (convert_to_openai_request encode64 text_of to_parameters model req))
