-- ===== src/Agent/RequestTests.antt =====
-- Concrete runs of the agents over the provider, and of the plan-and-execute agent.
use xgc_agent.Prelude.{ℕ, zero, suc, ◌≤◌, ◌≡◌, none, some, [], ◌∷◌, inr, All, length}
use xgc_agent.Prelude.Int.{pos}
use xgc_agent.Tools.Registry.{BaseTool, Registry, non_streaming}
use xgc_agent.Agent.React.{Services, run, max_iterations}
use xgc_agent.Agent.Provider.{Client, openai_services}
use xgc_agent.Agent.Requests.{IsAnswered, run-IsAnswered}
use xgc_agent.Agent.Plan.{plan_run}
use xgc_agent.Agent.SameLoop.{renamed, plan_run-run}

abbrev calc : BaseTool ℕ
calc = record { name = "calc"; description = ""; schema = 0; tool_type = non_streaming }

abbrev one_tool : Registry ℕ
one_tool = record { tools = ("calc", calc) ∷ []; max_tools = 1 }

-- Tools that count their calls.
abbrev base : Services ℕ ℕ ℕ ℕ
base = record {
  generate = λ msgs w. (inr [], w);
  execute = λ tool arguments w. (inr w, suc w);
  before_call = λ name arguments w. (none, w);
  after_call = λ name result w. (none, w);
  on_error = λ e w. w;
  encode = λ result. "0";
  describe = λ e. "error";
}

-- A service that calls the tool twice while fewer than two calls were made, and then answers.
abbrev client : Client ℕ ℕ ℕ
client = record {
  encode64 = λ bytes. "";
  text_of = λ bytes. "";
  bytes_of = λ text. [];
  to_parameters = λ schema. some schema;
  complete = λ params w. (
    inr (record {
      id = "r";
      model = "m";
      choices =
          record {
            position = 0;
            content = "";
            tool_calls = elim w [
              | zero ↦
                  record { id = "a"; name = "calc"; arguments = "" }
                  ∷ record { id = "b"; name = "none"; arguments = "" }
                  ∷ []
              | suc n ↦ []
            ];
            finish_reason = "stop";
          }
          ∷ [];
      usage = record { prompt_tokens = 1; completion_tokens = 1; total_tokens = 2 };
    }),
    w,
  );
  now = 0;
  model = "m";
}

run-IsAnswered_example :
    (length
        (run
          (openai_services {Any = ℕ} base client [])
          one_tool
          (pos 3)
          "think"
          "1 + 1"
          (0, [])).2.1
      ≤ max_iterations (pos 3))
    × All IsAnswered
        (run
          (openai_services {Any = ℕ} base client [])
          one_tool
          (pos 3)
          "think"
          "1 + 1"
          (0, [])).2.1
run-IsAnswered_example = run-IsAnswered base client [] one_tool (pos 3) "think" "1 + 1" 0

plan_run-run_example :
    plan_run base one_tool (pos 3) "plan" "1 + 1" 0
    ≡ (let done = run base one_tool (pos 3) "plan" "1 + 1" 0 in (renamed done.0, done.1, done.2))
plan_run-run_example = plan_run-run base one_tool (pos 3) "plan" "1 + 1" 0
