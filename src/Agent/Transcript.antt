-- ===== src/Agent/Transcript.antt =====
-- The messages of a run.
use xgc_agent.Prelude.{
  ℕ, zero, suc, ◌+◌, ◌≡◌, ◌≢◌, refl, String, List, [], ◌∷◌, ◌++◌, arith, ◌⊎◌, inl, inr,
}
use xgc_agent.Prelude.Int.{ℤ}
use xgc_agent.Message.{Message, ToolCall, new_message, role_system, role_user, role_tool}
use xgc_agent.Tools.Registry.{Registry}
use xgc_agent.Agent.React.{
  Services, Outcome, answered, generate_failed, max_iterations_exceeded, decide, max_iterations,
  execute_tool, reply_content, run_calls, react_loop, run,
}

pub sum-cases : {A B : Type 0} (s : A ⊎ B) → ((a : A) × (s ≡ inl a)) ⊎ ((b : B) × (s ≡ inr b))
sum-cases (inl a) = inl (a, refl)
sum-cases (inr b) = inr (b, refl)

module _ {Any : Type 0} where
  -- One tool message for each call, in the order of the calls, with the call's id and the tool's
  -- name.
  abbrev pub Answers : List (ToolCall Any) → List (Message Any) → Type 0
  Answers [] [] = Unit
  Answers (tc ∷ calls) (m ∷ ms) =
      (m.role ≡ role_tool)
      × (m.tool_id ≡ tc.id)
      × (m.tool_name ≡ tc.tool_definition.name)
      × Answers calls ms
  Answers _ _ = ⊥

-- A response whose first choice has tool calls, and that choice.
abbrev pub Chooses : {Any : Type 0} → String ⊎ List (Message Any) → Message Any → Type 0
Chooses (inr (first ∷ choices)) choice = (choice ≡ first) × (first.tool_calls ≢ [])
Chooses _ choice = ⊥

-- A response that ends the run, and the outcome: an error, no choice, or a first choice that calls
-- no tool.
abbrev pub EndsWith : {Any : Type 0} → String ⊎ List (Message Any) → Outcome → Type 0
EndsWith (inl e) outcome = outcome ≡ generate_failed e
EndsWith (inr []) outcome = outcome ≡ answered ""
EndsWith (inr (first ∷ choices)) outcome =
    (first.tool_calls ≡ []) × (outcome ≡ answered first.content)

decide_cases :
    {Any : Type 0} (r : String ⊎ List (Message Any))
    → ((outcome : Outcome) × (decide r ≡ inl outcome) × EndsWith r outcome)
      ⊎ ((choice : Message Any) × (decide r ≡ inr choice) × Chooses r choice)
unfolding decide
decide_cases (inl e) = inl (generate_failed e, refl, refl)
decide_cases (inr []) = inl (answered "", refl, refl)
decide_cases {Any} (inr (first ∷ choices)) = by_calls first.tool_calls refl
  where
    by_calls :
        (calls : List (ToolCall Any))
        → first.tool_calls ≡ calls
        → ((outcome : Outcome) × (decide (inr (first ∷ choices)) ≡ inl outcome)
            × EndsWith (inr (first ∷ choices)) outcome)
          ⊎ ((choice : Message Any) × (decide (inr (first ∷ choices)) ≡ inr choice)
              × Chooses (inr (first ∷ choices)) choice)
    by_calls [] h = inl (answered first.content, rw (decide, h) refl, (h, refl))
    by_calls (tc ∷ calls) h = inr (first, simp (decide, h) refl, (refl, λ e. cc))

module _ {Any Schema Result W : Type 0} (services : Services Any Schema Result W)
    (registry : Registry Schema) where
  -- One tool message for each call, in the order of the calls, with the call's id, the tool's name
  -- and what the call gave, each call in the world that the one before it left.
  abbrev pub IsReplied : List (ToolCall Any) → W → List (Message Any) → W → Type 0
  IsReplied [] w replies w' = (replies ≡ []) × (w' ≡ w)
  IsReplied (tc ∷ calls) w [] w' = ⊥
  IsReplied (tc ∷ calls) w (m ∷ ms) w' =
      (m.role ≡ role_tool)
      × (m.tool_id ≡ tc.id)
      × (m.tool_name ≡ tc.tool_definition.name)
      × (m.content ≡ reply_content services registry (execute_tool services registry tc w).0)
      × IsReplied calls (execute_tool services registry tc w).1 ms w'

  -- The prompt and the input, and then so many rounds: the choice in the model's response to the
  -- messages so far, and the replies to its tool calls.
  pub data IsTranscript (prompt input : String) (start : W)
      : ℕ → List (Message Any) → W → Type 0 where
    opening :
        IsTranscript prompt input start 0
          (new_message role_system prompt ∷ new_message role_user input ∷ [])
          start
    round :
        {n : ℕ} {ms : List (Message Any)} {w : W} (choice : Message Any)
        (replies : List (Message Any)) (w' : W)
        → IsTranscript prompt input start n ms w
        → Chooses (services.generate ms w).0 choice
        → IsReplied choice.tool_calls (services.generate ms w).1 replies w'
        → IsTranscript prompt input start (suc n) (ms ++ choice ∷ replies) w'

  -- How a run ends that has so many rounds left.
  abbrev pub IsEnd : ℕ → List (Message Any) → W → Outcome → W → Type 0
  IsEnd zero ms w outcome w' = (outcome ≡ max_iterations_exceeded) × (w' ≡ w)
  IsEnd (suc left) ms w outcome w' =
      EndsWith (services.generate ms w).0 outcome × (w' ≡ (services.generate ms w).1)

  -- A run of no more than `limit` rounds: some rounds, and the end with those that are left.
  abbrev pub IsRun : ℕ → String → String → W → Outcome × List (Message Any) × W → Type 0
  IsRun limit prompt input start (outcome, ms, after) =
      (k : ℕ) × (left : ℕ) × (w : W) × (k + left ≡ limit)
      × IsTranscript prompt input start k ms w
      × IsEnd left ms w outcome after

module _ {Any Schema Result W : Type 0} (services : Services Any Schema Result W)
    (registry : Registry Schema) where
  pub run_calls-Answers :
      (calls : List (ToolCall Any)) (w : W) → Answers calls (run_calls services registry calls w).0
  unfolding run_calls
  run_calls-Answers [] w = tt
  run_calls-Answers (tc ∷ calls) w =
      (refl, refl, refl, run_calls-Answers calls (execute_tool services registry tc w).1)

  run_calls-IsReplied :
      (calls : List (ToolCall Any)) (w : W)
      → IsReplied services registry calls w
          (run_calls services registry calls w).0
          (run_calls services registry calls w).1
  unfolding run_calls
  run_calls-IsReplied [] w = (refl, refl)
  run_calls-IsReplied (tc ∷ calls) w =
      (refl, refl, refl, refl, run_calls-IsReplied calls (execute_tool services registry tc w).1)

  react_loop-IsRun :
      (prompt input : String) (start : W) (limit rounds n : ℕ) (ms : List (Message Any)) (w : W)
      → n + rounds ≡ limit
      → IsTranscript services registry prompt input start n ms w
      → IsRun services registry limit prompt input start (react_loop services registry rounds ms w)
  unfolding react_loop
  react_loop-IsRun prompt input start limit zero n ms w h t =
      (n, 0, w, omega arith, t, (refl, refl))
  react_loop-IsRun prompt input start limit (suc rounds) n ms w h t =
      let generated = services.generate ms w in
      elim (decide_cases generated.0) [
        | inl (outcome, e, ends) ↦
            rw (react_loop, e) (n, suc rounds, w, omega arith, t, (ends, refl))
        | inr (choice, e, chooses) ↦
            let replied = run_calls services registry choice.tool_calls generated.1 in
            let rest =
              react_loop-IsRun prompt input start limit rounds (suc n) (ms ++ choice ∷ replied.0)
                replied.1 (omega (arith, h))
                (round choice replied.0 replied.1 t chooses
                  (run_calls-IsReplied choice.tool_calls generated.1)) in
            rw (react_loop, e) (rest.0, rest.1, rest.2, rest.3, rest.4, rest.5)
      ]

  -- The messages of a run are the prompt, the input and then rounds: the first choice of the model's
  -- response to the messages so far, which has tool calls, and one tool message for each of them,
  -- in their order, with the call's id, the tool's name and the result or error of the call. After
  -- as many rounds as the limit the run ends with the error that says so. It ends earlier where the
  -- response to the messages is an error, which it gives, has no choice, when the answer is empty, or
  -- has a first choice without tool calls, whose content is the answer.
  pub run-IsRun :
      (limit : ℤ) (prompt input : String) (w : W)
      → IsRun services registry
          (max_iterations limit)
          prompt
          input
          w
          (run services registry limit prompt input w)
  unfolding run
  run-IsRun limit prompt input w =
      react_loop-IsRun prompt input w (max_iterations limit) (max_iterations limit) 0 _ w
        (omega arith) opening
