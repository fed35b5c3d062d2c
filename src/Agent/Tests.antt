-- ===== src/Agent/Tests.antt =====
-- Concrete runs of the agents.
use xgc_agent.Prelude.{ℕ, zero, suc, ◌≡◌, refl, none, [], ◌∷◌, inr}
use xgc_agent.Prelude.Int.{pos}
use xgc_agent.Prelude.Maps.{lookup}
use xgc_agent.Prelude.Text.{trim_space, trim_left, trim_right, is_space}
use xgc_agent.Message.{Message, message_assistant}
use xgc_agent.Tools.Registry.{Registry, get}
use xgc_agent.Agent.React.{
  Services, answered, max_iterations, decide, react_loop, run_calls, execute_tool, run_tool, run,
}
use xgc_agent.Agent.Transcript.{IsRun, run-IsRun}

abbrev call : Message ℕ
call = record (message_assistant {Any = ℕ} "") {
  tool_calls =
      record {
        id = "c1";
        tool_definition = record {
          tool_type = 0;
          name = "calc";
          description = "";
          parameters = [];
        };
        position = none;
        extra = [];
      }
      ∷ [];
}

-- A model that calls a tool as often as the world says, and then answers.
abbrev services : Services ℕ ℕ ℕ ℕ
services = record {
  generate = λ msgs w. elim w [
    | zero ↦ (inr (message_assistant "done" ∷ []), zero)
    | suc n ↦ (inr (call ∷ []), n)
  ];
  execute = λ tool arguments w. (inr 0, w);
  before_call = λ name arguments w. (none, w);
  after_call = λ name result w. (none, w);
  on_error = λ e w. w;
  encode = λ result. "0";
  describe = λ e. "error";
}

abbrev no_tools : Registry ℕ
no_tools = record { tools = []; max_tools = 1 }

called_then_answered : (run services no_tools (pos 3) "think" "1 + 1" 2).0 ≡ answered "done"
unfolding run react_loop decide max_iterations run_calls execute_tool run_tool get trim_space
    trim_right trim_left is_space lookup
called_then_answered = refl

run-IsRun_example :
    IsRun services no_tools
      (max_iterations (pos 3))
      "think"
      "1 + 1"
      2
      (run services no_tools (pos 3) "think" "1 + 1" 2)
run-IsRun_example = run-IsRun services no_tools (pos 3) "think" "1 + 1" 2
