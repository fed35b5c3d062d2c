-- ===== src/Agent/Plan.antt =====
-- `Run` of agent/plan_execute.go, over the execution of tool calls that the agents share.
use xgc_agent.Prelude.{
  ℕ, zero, suc, String, List, [], ◌∷◌, ◌++◌, ◌⊎◌, inl, inr, if◌then◌else◌, ◌=?◌, string_eq,
}
use xgc_agent.Prelude.Int.{ℤ, is_nonpos, to_ℕ}
use xgc_agent.Message.{Message, ToolCall, new_message, role_system, role_user, role_tool}
use xgc_agent.Tools.Registry.{Registry}
use xgc_agent.Agent.React.{Services, execute_tool, reply_content}

unfoldable pub max_steps : ℤ → ℕ
max_steps limit = if is_nonpos limit then 10 else to_ℕ limit

-- The prompt in the agent's language: the Chinese one unless the locale is "en".
unfoldable pub system_prompt : String → String → String → String
system_prompt zh en locale = if locale =? "en" then en else zh

pub data PlanOutcome : Type 0 where
  plan_answered plan_generate_failed : String → PlanOutcome
  max_steps_exceeded : PlanOutcome

-- What a response means: the end of the run, or a choice whose tool calls are to be run.
unfoldable pub decide_step :
    {Any : Type 0} → String ⊎ List (Message Any) → PlanOutcome ⊎ Message Any
decide_step (inl e) = inl (plan_generate_failed e)
decide_step (inr []) = inl (plan_answered "")
decide_step (inr (choice ∷ choices)) = elim choice.tool_calls [
  | [] ↦ inl (plan_answered choice.content)
  | tc ∷ calls ↦ inr choice
]

module _ {Any Schema Result W : Type 0} (services : Services Any Schema Result W)
    (registry : Registry Schema) where
  -- The calls of a choice, each answered behind the messages so far.
  unfoldable pub answer_calls :
      List (ToolCall Any) → List (Message Any) → W → List (Message Any) × W
  answer_calls [] msgs w = (msgs, w)
  answer_calls (tc ∷ calls) msgs w =
      let done = execute_tool services registry tc w in
      let tool_msg = record (new_message role_tool (reply_content services registry done.0)) {
        tool_id = tc.id;
        tool_name = tc.tool_definition.name;
      } in
      answer_calls calls (msgs ++ tool_msg ∷ []) done.1

  unfoldable pub plan_loop : ℕ → List (Message Any) → W → PlanOutcome × List (Message Any) × W
  plan_loop zero msgs w = (max_steps_exceeded, msgs, w)
  plan_loop (suc steps) msgs w =
      let generated = services.generate msgs w in
      elim (decide_step generated.0) [
        | inl outcome ↦ (outcome, msgs, generated.1)
        | inr choice ↦
            let replied = answer_calls choice.tool_calls (msgs ++ choice ∷ []) generated.1 in
            plan_loop steps replied.0 replied.1
      ]

  unfoldable pub plan_run : ℤ → String → String → W → PlanOutcome × List (Message Any) × W
  plan_run limit prompt input w =
      plan_loop (max_steps limit)
        (new_message role_system prompt ∷ new_message role_user input ∷ []) w
