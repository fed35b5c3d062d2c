-- ===== src/Agent/Provider.antt =====
-- The agents over the provider of OpenAI's service. The world has the service's and the tools'
-- state, and beside it the requests that were sent, which the program does not keep.
use xgc_agent.Prelude.{ℕ, String, Option, none, some, List, [], ◌∷◌, ◌++◌, ◌⊎◌, inl, inr}
use xgc_agent.Message.{Message}
use xgc_agent.Message.Response.{Request, Response, ResponseChoice}
use xgc_agent.Tools.Registry.{BaseTool}
use xgc_agent.Model.Openai.Convert.{ChatParams, convert_to_openai_request}
use xgc_agent.Model.Openai.Reply.{Completion, respond}
use xgc_agent.Model.Openai.Reply
use xgc_agent.Agent.React.{Services}

-- What the provider's client, and the libraries that it calls, are.
pub record Client (Schema Params V : Type 0) : Type 0 where
  pub encode64 : List ℕ → String
  pub text_of : List ℕ → String
  pub bytes_of : String → List ℕ
  pub to_parameters : Schema → Option Params
  pub complete : ChatParams Params → V → (String ⊎ Completion) × V
  pub now : ℕ
  pub model : String

module _ {Any : Type 0} where
  unfoldable pub choice_messages : List (ResponseChoice Any) → List (Message Any)
  choice_messages [] = []
  choice_messages (c ∷ cs) = c.message ∷ choice_messages cs

  -- What the agent looks at in the result of `Generater`: the error, else the messages of the
  -- choices.
  unfoldable pub generated :
      Option (Response Any) × Option Reply.Error → String ⊎ List (Message Any)
  generated (none, none) = inr []
  generated (some r, none) = inr (choice_messages r.choices)
  generated (r, some Reply.nil_request) = inl "nil request"
  generated (r, some (Reply.service_failed e)) = inl e

  -- The request that the agent makes: the messages and the tools, and no settings.
  abbrev pub new_request :
      {Schema : Type 0}
      → List (Message Any)
      → List (String × BaseTool Schema)
      → Request Any (BaseTool Schema)
  new_request msgs tools = record {
    messages = msgs;
    config = record { max_tokens = none; temperature = none; top_p = none; stop = [] };
    tools = tools;
  }

  module _ {Schema Result Params V : Type 0} (base : Services Any Schema Result V)
      (client : Client Schema Params V) (tools : List (String × BaseTool Schema)) where
    unfoldable pub params_for : List (Message Any) → ChatParams Params
    params_for msgs =
        convert_to_openai_request client.encode64 client.text_of client.to_parameters client.model
          (new_request msgs tools)

    -- The services of an agent whose model is the provider; all else is as before.
    abbrev pub openai_services : Services Any Schema Result (V × List (ChatParams Params))
    openai_services = record {
      generate = λ msgs w.
          let answer = client.complete (params_for msgs) w.0 in
          (
            generated (respond client.bytes_of client.now answer.0),
            (answer.1, w.1 ++ params_for msgs ∷ []),
          );
      execute = λ t arguments w. let r = base.execute t arguments w.0 in (r.0, (r.1, w.1));
      before_call =
          λ name arguments w. let r = base.before_call name arguments w.0 in (r.0, (r.1, w.1));
      after_call = λ name result w. let r = base.after_call name result w.0 in (r.0, (r.1, w.1));
      on_error = λ e w. (base.on_error e w.0, w.1);
      encode = base.encode;
      describe = base.describe;
    }
