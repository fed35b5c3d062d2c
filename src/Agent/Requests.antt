-- ===== src/Agent/Requests.antt =====
-- The requests that the ReAct agent sends to OpenAI's service.
use xgc_agent.Prelude.{
  ℕ, zero, suc, ◌≤◌, ◌≡◌, refl, sym, ap, subst, ◌∙◌, String, Bool, true, false, ◌&&◌, Option, none,
  some, List, [], ◌∷◌, ◌++◌, arith, ◌⊎◌, inl, inr, ◌=?◌, string_eq, beq_refl, append-nil,
  Option-cases, All, length, append_assoc,
}
use xgc_agent.Prelude.Int.{ℤ}
use xgc_agent.Message.{
  Message, ToolCall, new_message, role_system, role_user, role_assistant, role_tool,
}
use xgc_agent.Tools.Registry.{BaseTool, Registry, get}
use xgc_agent.Model.Openai.Content.{convert_text_content}
use xgc_agent.Model.Openai.Convert.{
  ChatParams, MessageParam, ToolCallParam, of_user, of_system, of_assistant, of_tool,
  convert_message, convert_to_openai_messages, convert_tool_calls, convert_to_openai_request,
}
use xgc_agent.Model.Openai.Reply.{
  Completion, CompletionChoice, error_response, respond, respond_with, response_choices,
  choice_message, new_calls,
}
use xgc_agent.Agent.React.{
  Services, decide, max_iterations, execute_tool, finish_call, run_tool, run_calls, react_loop, run,
}
use xgc_agent.Agent.Transcript.{Answers, run_calls-Answers, sum-cases}
use xgc_agent.Agent.Provider.{Client, choice_messages, generated, params_for, openai_services}

abbrev pub ids : List ToolCallParam → List String
ids [] = []
ids (tc ∷ calls) = tc.id ∷ ids calls

-- Each message with tool calls is followed by their answers, in their order, and no answer stands
-- elsewhere; at first the answers to some ids are due.
abbrev pub answered : List String → List MessageParam → Bool
answered [] [] = true
answered (i ∷ due) [] = false
answered [] (of_user c ∷ ps) = answered [] ps
answered (i ∷ due) (of_user c ∷ ps) = false
answered [] (of_system c ∷ ps) = answered [] ps
answered (i ∷ due) (of_system c ∷ ps) = false
answered [] (of_assistant c calls ∷ ps) = answered (ids calls) ps
answered (i ∷ due) (of_assistant c calls ∷ ps) = false
answered [] (of_tool c id ∷ ps) = false
answered (i ∷ due) (of_tool c id ∷ ps) = i =? id && answered due ps

-- The request has every call answered.
abbrev pub IsAnswered : {Params : Type 0} → ChatParams Params → Type 0
IsAnswered p = answered [] p.messages ≡ true

answered-append :
    (due : List String) (xs ys : List MessageParam)
    → answered due xs ≡ true
    → answered due (xs ++ ys) ≡ answered [] ys
answered-append [] [] ys h = refl
answered-append (i ∷ due) [] ys h = cc
answered-append [] (of_user c ∷ xs) ys h = answered-append [] xs ys h
answered-append (i ∷ due) (of_user c ∷ xs) ys h = cc
answered-append [] (of_system c ∷ xs) ys h = answered-append [] xs ys h
answered-append (i ∷ due) (of_system c ∷ xs) ys h = cc
answered-append [] (of_assistant c calls ∷ xs) ys h = answered-append (ids calls) xs ys h
answered-append (i ∷ due) (of_assistant c calls ∷ xs) ys h = cc
answered-append [] (of_tool c id ∷ xs) ys h = cc
answered-append (i ∷ due) (of_tool c id ∷ xs) ys h = ground (arith, answered-append due xs ys)

module _ {Any : Type 0} (encode64 : List ℕ → String) (text_of : List ℕ → String) where
  convert-append :
      (xs ys : List (Message Any))
      → convert_to_openai_messages encode64 text_of (xs ++ ys)
        ≡ convert_to_openai_messages encode64 text_of xs
          ++ convert_to_openai_messages encode64 text_of ys
  unfolding convert_to_openai_messages
  convert-append [] ys = refl
  convert-append (x ∷ xs) ys = ap (◌∷◌ (convert_message encode64 text_of x)) (convert-append xs ys)

  convert-tool :
      (m : Message Any)
      → m.role ≡ role_tool
      → convert_message encode64 text_of m ≡ of_tool m.content m.tool_id
  unfolding convert_message
  convert-tool m h = rw h refl

  convert-assistant :
      (m : Message Any)
      → m.role ≡ role_assistant
      → convert_message encode64 text_of m
        ≡ of_assistant (convert_text_content m) (convert_tool_calls text_of m.tool_calls)
  unfolding convert_message
  convert-assistant m h = rw h refl

  answered-replies :
      (calls : List (ToolCall Any)) (replies : List (Message Any))
      → Answers calls replies
      → answered
          (ids (convert_tool_calls text_of calls))
          (convert_to_openai_messages encode64 text_of replies)
        ≡ true
  unfolding convert_to_openai_messages convert_tool_calls
  answered-replies [] [] h = refl
  answered-replies [] (m ∷ ms) h = absurd h
  answered-replies (tc ∷ calls) [] h = absurd h
  answered-replies (tc ∷ calls) (m ∷ ms) h =
      rw (convert-tool m h.0, h.1, beq_refl tc.id) (answered-replies calls ms h.3)

  -- A round leaves nothing unanswered.
  answered-round :
      (ms : List (Message Any)) (choice : Message Any) (replies : List (Message Any))
      → choice.role ≡ role_assistant
      → Answers choice.tool_calls replies
      → answered [] (convert_to_openai_messages encode64 text_of ms) ≡ true
      → answered [] (convert_to_openai_messages encode64 text_of (ms ++ choice ∷ replies)) ≡ true
  unfolding convert_to_openai_messages
  answered-round ms choice replies r a h =
      rw
        (
          convert-append ms (choice ∷ replies),
          answered-append [] (convert_to_openai_messages encode64 text_of ms)
              (convert_to_openai_messages encode64 text_of (choice ∷ replies)) h,
          convert-assistant choice r,
        )
        (answered-replies choice.tool_calls replies a)

module _ {Any : Type 0} (bytes_of : String → List ℕ) where
  decide_with-assistant :
      (now : ℕ) (completion : Completion) (choices : List CompletionChoice) (choice : Message Any)
      → decide (generated (respond_with bytes_of now completion choices)) ≡ inr choice
      → choice.role ≡ role_assistant
  unfolding decide generated respond_with error_response response_choices choice_messages
      choice_message new_calls
  decide_with-assistant now completion [] choice h = cc
  decide_with-assistant now completion (c ∷ cs) choice h = ground arith

  -- The choice that the agent goes on with is the assistant's.
  decide-assistant :
      (now : ℕ) (answer : String ⊎ Completion) (choice : Message Any)
      → decide (generated (respond bytes_of now answer)) ≡ inr choice
      → choice.role ≡ role_assistant
  unfolding decide generated respond
  decide-assistant now (inl e) choice h = ground arith
  decide-assistant now (inr completion) choice h =
      decide_with-assistant now completion completion.choices choice h

module _ {Any Schema Result Params V : Type 0} (base : Services Any Schema Result V)
    (client : Client Schema Params V) (tools : List (String × BaseTool Schema))
    (registry : Registry Schema) where
  abbrev World : Type 0
  World = V × List (ChatParams Params)

  abbrev log : World → List (ChatParams Params)
  log w = w.1

  finish_call-log :
      (name : String) (r : String ⊎ Result) (w : World)
      → log (finish_call (openai_services base client tools) registry name (r, w)).1 ≡ log w
  unfolding finish_call
  finish_call-log name (inl e) w = refl
  finish_call-log name (inr result) w = ground arith

  run_tool-log :
      (name : String) (arguments : List ℕ) (t : Option (BaseTool Schema)) (w : World)
      → log (run_tool (openai_services base client tools) registry name arguments t w).1 ≡ log w
  unfolding run_tool
  run_tool-log name arguments none w = refl
  run_tool-log name arguments (some t) w =
      let done = base.execute t arguments w.0 in
      ground (arith, finish_call-log name done.0 (done.1, w.1))

  execute_tool-log :
      (tc : ToolCall Any) (w : World)
      → log (execute_tool (openai_services base client tools) registry tc w).1 ≡ log w
  unfolding execute_tool
  execute_tool-log tc w =
      let name = tc.tool_definition.name in
      let arguments = tc.tool_definition.parameters in
      let called = base.before_call name arguments w.0 in
      elim (Option-cases called.0) [
        | inl e ↦
            rw (execute_tool, e) (run_tool-log name arguments (get name registry) (called.1, w.1))
        | inr (x, e) ↦ rw (execute_tool, e) refl
      ]

  run_calls-log :
      (calls : List (ToolCall Any)) (w : World)
      → log (run_calls (openai_services base client tools) registry calls w).1 ≡ log w
  unfolding run_calls
  run_calls-log [] w = refl
  run_calls-log (tc ∷ calls) w =
      run_calls-log calls (execute_tool (openai_services base client tools) registry tc w).1
      ∙ execute_tool-log tc w

  params_for-IsAnswered :
      (ms : List (Message Any))
      → answered [] (convert_to_openai_messages client.encode64 client.text_of ms) ≡ true
      → IsAnswered (params_for base client tools ms)
  unfolding params_for convert_to_openai_request
  params_for-IsAnswered ms h = h

  react_loop-log :
      (rounds : ℕ) (ms : List (Message Any)) (w : World)
      → answered [] (convert_to_openai_messages client.encode64 client.text_of ms) ≡ true
      → (new : List (ChatParams Params)) × (log
            (react_loop (openai_services base client tools) registry rounds ms w).2
          ≡ log w ++ new)
        × (length new ≤ rounds)
        × All IsAnswered new
  unfolding react_loop
  react_loop-log zero ms w h = ([], sym (append-nil (log w)), omega arith, tt)
  react_loop-log (suc rounds) ms w h =
      let services = openai_services base client tools in
      let params = params_for base client tools ms in
      let generated = services.generate ms w in
      let good = params_for-IsAnswered ms h in
      elim (sum-cases (decide generated.0)) [
        | inl (outcome, e) ↦ (params ∷ [], rw (react_loop, e) refl, omega arith, (good, tt))
        | inr (choice, e) ↦
            let replied = run_calls services registry choice.tool_calls generated.1 in
            let rest = react_loop-log rounds (ms ++ choice ∷ replied.0) replied.1 (
              answered-round client.encode64 client.text_of ms choice replied.0
                (decide-assistant client.bytes_of client.now (client.complete params w.0).0 choice
                  e)
                (run_calls-Answers services registry choice.tool_calls generated.1) h) in
            (
              params ∷ rest.0,
              rw (react_loop, e)
                  (rest.1
                    ∙ ap (λ l. l ++ rest.0) (run_calls-log choice.tool_calls generated.1)
                    ∙ append_assoc (log w) (params ∷ []) rest.0),
              omega (arith, rest.2),
              (good, rest.3),
            )
      ]

  -- A run of the agent over the provider sends no more requests than its limit, and in each of them
  -- every message with tool calls is followed by their answers, one for each, in order, and no
  -- answer stands elsewhere.
  pub run-IsAnswered :
      (limit : ℤ) (prompt input : String) (v : V)
      → (length
            (log (run (openai_services base client tools) registry limit prompt input (v, [])).2)
          ≤ max_iterations limit)
        × All IsAnswered
            (log (run (openai_services base client tools) registry limit prompt input (v, [])).2)
  unfolding run convert_to_openai_messages convert_message
  run-IsAnswered limit prompt input v =
      let sent =
        react_loop-log (max_iterations limit)
          (new_message role_system prompt ∷ new_message role_user input ∷ []) (v, []) refl in
      (
        subst (λ l. length l ≤ max_iterations limit) (sym sent.1) sent.2,
        subst (All IsAnswered) (sym sent.1) sent.3,
      )
