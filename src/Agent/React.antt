-- ===== src/Agent/React.antt =====
-- `executeTool` of agent/agent.go and `Run` of agent/react.go. The model, the tools' code and the
-- hooks are parameters that may change a world `W`; a hook that is not set is one that returns no
-- error.
use xgc_agent.Prelude.{
  ℕ, zero, suc, String, Option, none, some, List, [], ◌∷◌, ◌++◌, ◌⊎◌, inl, inr, if◌then◌else◌,
}
use xgc_agent.Prelude.Int.{ℤ, is_nonpos, to_ℕ}
use xgc_agent.Message.{Message, ToolCall, new_message, role_system, role_user, message_tool}
use xgc_agent.Tools.Registry.{BaseTool, Registry, non_streaming, streaming, mcp, get}

-- What goes wrong in a tool call: a hook, the tool's code, or the lookup.
pub data Error : Type 0 where
  hook_failed tool_failed : String → Error
  tool_not_found not_non_streaming : String → Error

-- What the agent calls. `generate` gives the messages of the choices, `encode` the JSON of a
-- result, and `describe` the text of an error.
pub record Services (Any Schema Result W : Type 0) : Type 0 where
  pub generate : List (Message Any) → W → (String ⊎ List (Message Any)) × W
  pub execute : BaseTool Schema → List ℕ → W → (String ⊎ Result) × W
  pub before_call : String → List ℕ → W → Option String × W
  pub after_call : String → Result → W → Option String × W
  pub on_error : String → W → W
  pub encode : Result → String
  pub describe : Error → String

pub data Outcome : Type 0 where
  answered generate_failed : String → Outcome
  max_iterations_exceeded : Outcome

unfoldable pub max_iterations : ℤ → ℕ
max_iterations limit = if is_nonpos limit then 10 else to_ℕ limit

-- What a response means: the end of the run, or a choice whose tool calls are to be run.
unfoldable pub decide : {Any : Type 0} → String ⊎ List (Message Any) → Outcome ⊎ Message Any
decide (inl e) = inl (generate_failed e)
decide (inr []) = inl (answered "")
decide (inr (choice ∷ choices)) = elim choice.tool_calls [
  | [] ↦ inl (answered choice.content)
  | tc ∷ calls ↦ inr choice
]

module _ {Any Schema Result W : Type 0} (services : Services Any Schema Result W)
    (registry : Registry Schema) where
  -- From the tool's result on.
  unfoldable pub finish_call : String → (String ⊎ Result) × W → (Error ⊎ Result) × W
  finish_call name (inl e, w) = (inl (tool_failed e), services.on_error e w)
  finish_call name (inr result, w) = elim (services.after_call name result w).0 [
    | some e ↦ (inl (hook_failed e), (services.after_call name result w).1)
    | none ↦ (inr result, (services.after_call name result w).1)
  ]

  unfoldable pub run_tool : String → List ℕ → Option (BaseTool Schema) → W → (Error ⊎ Result) × W
  run_tool name arguments none w = (inl (tool_not_found name), w)
  run_tool name arguments (some t) w = elim t.tool_type [
    | non_streaming ↦ finish_call name (services.execute t arguments w)
    | streaming ↦ (inl (not_non_streaming t.name), w)
    | mcp ↦ (inl (not_non_streaming t.name), w)
  ]

  unfoldable pub execute_tool : ToolCall Any → W → (Error ⊎ Result) × W
  execute_tool tc w =
      let name = tc.tool_definition.name in
      let arguments = tc.tool_definition.parameters in
      let called = services.before_call name arguments w in
      elim called.0 [
        | some e ↦ (inl (hook_failed e), called.1)
        | none ↦ run_tool name arguments (get name registry) called.1
      ]

  unfoldable pub reply_content : Error ⊎ Result → String
  reply_content (inl e) = services.describe e
  reply_content (inr result) = services.encode result

  -- The messages that answer the tool calls of a choice.
  unfoldable pub run_calls : List (ToolCall Any) → W → List (Message Any) × W
  run_calls [] w = ([], w)
  run_calls (tc ∷ calls) w =
      let done = execute_tool tc w in
      let rest = run_calls calls done.1 in
      (message_tool tc.id tc.tool_definition.name (reply_content done.0) ∷ rest.0, rest.1)

  -- The loop, with the messages that it leaves.
  unfoldable pub react_loop : ℕ → List (Message Any) → W → Outcome × List (Message Any) × W
  react_loop zero msgs w = (max_iterations_exceeded, msgs, w)
  react_loop (suc rounds) msgs w =
      let generated = services.generate msgs w in
      elim (decide generated.0) [
        | inl outcome ↦ (outcome, msgs, generated.1)
        | inr choice ↦
            let replied = run_calls choice.tool_calls generated.1 in
            react_loop rounds (msgs ++ choice ∷ replied.0) replied.1
      ]

  unfoldable pub run : ℤ → String → String → W → Outcome × List (Message Any) × W
  run limit system_prompt input w =
      react_loop (max_iterations limit)
        (new_message role_system system_prompt ∷ new_message role_user input ∷ []) w
