-- ===== src/Agent/SameLoop.antt =====
-- The loop of agent/plan_execute.go beside that of agent/react.go.
use xgc_agent.Prelude.{
  ◌≡◌, refl, sym, ap, ◌∙◌, ℕ, zero, suc, String, List, [], ◌∷◌, ◌++◌, ◌⊎◌, inl, inr, append_assoc,
  append-nil,
}
use xgc_agent.Prelude.Int.{ℤ}
use xgc_agent.Message.{Message, ToolCall, new_message, message_tool, role_system, role_user}
use xgc_agent.Tools.Registry.{Registry}
use xgc_agent.Agent.React.{
  Services, Outcome, answered, generate_failed, max_iterations_exceeded, max_iterations, decide,
  execute_tool, reply_content, run_calls, react_loop, run,
}
use xgc_agent.Agent.Transcript.{sum-cases}
use xgc_agent.Agent.Plan.{
  PlanOutcome, plan_answered, plan_generate_failed, max_steps_exceeded, max_steps, decide_step,
  answer_calls, plan_loop, plan_run,
}

-- The two agents name their errors differently: one says that it is over its iterations, the other
-- that it is over its steps, and each names itself in an error of the model.
abbrev pub renamed : Outcome → PlanOutcome
renamed (answered text) = plan_answered text
renamed (generate_failed e) = plan_generate_failed e
renamed max_iterations_exceeded = max_steps_exceeded

on_calls :
    {Any : Type 0} (choice : Message Any) (calls : List (ToolCall Any))
    → (elim calls as (λ _. PlanOutcome ⊎ Message Any) [
      | [] ↦ inl (plan_answered choice.content)
      | tc ∷ rest ↦ inr choice
    ])
      ≡ (elim (elim calls as (λ _. Outcome ⊎ Message Any) [
        | [] ↦ inl (answered choice.content)
        | tc ∷ rest ↦ inr choice
      ])
          as (λ _. PlanOutcome ⊎ Message Any) [ inl o ↦ inl (renamed o) | inr c ↦ inr c ])
on_calls choice [] = refl
on_calls choice (tc ∷ calls) = refl

decide_step_lem :
    {Any : Type 0} (r : String ⊎ List (Message Any))
    → decide_step r ≡ (elim (decide r) as (λ _. PlanOutcome ⊎ Message Any) [
      | inl o ↦ inl (renamed o)
      | inr choice ↦ inr choice
    ])
unfolding decide decide_step
decide_step_lem (inl e) = refl
decide_step_lem (inr []) = refl
decide_step_lem (inr (choice ∷ choices)) = on_calls choice choice.tool_calls

module _ {Any Schema Result W : Type 0} (services : Services Any Schema Result W)
    (registry : Registry Schema) where
  answer_calls_lem :
      (calls : List (ToolCall Any)) (msgs : List (Message Any)) (w : W)
      → answer_calls services registry calls msgs w
        ≡ (msgs ++ (run_calls services registry calls w).0, (run_calls services registry calls w).1)
  unfolding answer_calls run_calls
  answer_calls_lem [] msgs w = ap (λ (l : List (Message Any)). (l, w)) (sym (append-nil msgs))
  answer_calls_lem (tc ∷ calls) msgs w =
      let done = execute_tool services registry tc w in
      let reply =
        message_tool tc.id tc.tool_definition.name (reply_content services registry done.0) in
      let rest = run_calls services registry calls done.1 in
      answer_calls_lem calls (msgs ++ reply ∷ []) done.1
      ∙ ap (λ (l : List (Message Any)). (l, rest.1)) (append_assoc msgs (reply ∷ []) rest.0)

  plan_loop_lem :
      (steps : ℕ) (msgs : List (Message Any)) (w : W)
      → plan_loop services registry steps msgs w
        ≡ (let done = react_loop services registry steps msgs w in (renamed done.0, done.1, done.2))
  unfolding plan_loop react_loop
  plan_loop_lem zero msgs w = refl
  plan_loop_lem (suc steps) msgs w =
      let generated = services.generate msgs w in
      elim (sum-cases (decide generated.0)) [
        | inl (outcome, e) ↦ rw (plan_loop, react_loop, decide_step_lem, e) refl
        | inr (choice, e) ↦
            let replied = run_calls services registry choice.tool_calls generated.1 in
            let same =
              answer_calls_lem choice.tool_calls (msgs ++ choice ∷ []) generated.1
              ∙ ap (λ (l : List (Message Any)). (l, replied.1))
                  (append_assoc msgs (choice ∷ []) replied.0) in
            rw (plan_loop, react_loop, decide_step_lem, e)
              (ap (λ (r : List (Message Any) × W). plan_loop services registry steps r.0 r.1) same
                ∙ plan_loop_lem steps (msgs ++ choice ∷ replied.0) replied.1)
      ]

  -- The plan-and-execute agent does what the ReAct agent does: with the same limit, prompt and
  -- input, the messages and the effects of a run are the same, and so is its outcome, but for the
  -- names of the two errors: a failure of the model, and a run that is over its limit.
  pub plan_run-run :
      (limit : ℤ) (prompt input : String) (w : W)
      → plan_run services registry limit prompt input w ≡ (
          let done = run services registry limit prompt input w in (renamed done.0, done.1, done.2))
  unfolding plan_run run max_steps max_iterations
  plan_run-run limit prompt input w =
      plan_loop_lem (max_iterations limit)
        (new_message role_system prompt ∷ new_message role_user input ∷ []) w
