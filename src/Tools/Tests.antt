-- ===== src/Tools/Tests.antt =====
-- Concrete runs of the package tools.
use xgc_agent.Prelude.{
  ℕ, ◌<◌, ◌+◌, ◌≡◌, refl, String, false, not, ◌&&◌, some, List, [], ◌∷◌, arith, if◌then◌else◌, ltb,
  ◌=?◌, string_eq, is_some,
}
use xgc_agent.Prelude.Maps.{insert, has}
use xgc_agent.Prelude.Sort.{sort, insert_sorted}
use xgc_agent.Prelude.Text.{trim_space, trim_left, trim_right, is_space, before}
use xgc_agent.Tools.Registry.{
  Registry, BaseTool, non_streaming, count, register, register_locked, get, list,
  tool_already_register,
}
use xgc_agent.Tools.Registry.Laws.{get-register}
use xgc_agent.Tools.Registry.Race.{Shared, pass, finish, Steps, stop, next, count_bounded}

abbrev tool : String → BaseTool ℕ
tool name = record { name = name; description = ""; schema = 0; tool_type = non_streaming }

abbrev two_tools : Registry ℕ
two_tools = record { tools = ("web", tool " web") ∷ ("calc", tool "calc") ∷ []; max_tools = 3 }

register-again : (register (some (tool "web ")) two_tools).0 ≡ some (tool_already_register "web")
unfolding register register_locked trim_space trim_left trim_right is_space has
register-again = refl

list-two_tools : list two_tools ≡ tool " web" ∷ tool "calc" ∷ []
unfolding list before sort insert_sorted
list-two_tools = refl

get-register_example :
    let taken =
      ltb (count two_tools) two_tools.max_tools
      && not (trim_space "mail" =? "")
      && not (is_some (get "mail" two_tools)) in
    (is_some (register (some (tool "mail")) two_tools).0 ≡ not taken)
    × (get "mail " (register (some (tool "mail")) two_tools).1 ≡ (
        if taken && trim_space "mail " =? trim_space "mail"
        then some (tool "mail")
        else get "mail " two_tools))
    × ((taken ≡ false) → (register (some (tool "mail")) two_tools).1 ≡ two_tools)
get-register_example = get-register (tool "mail") two_tools "mail "

-- Two callers pass the test of a registry that takes one tool.
abbrev one_place : Registry ℕ
one_place = record { tools = []; max_tools = 1 }

abbrev waiting : List (BaseTool ℕ) → Shared ℕ
waiting ts = record { registry = one_place; pending = ts }

abbrev a_done : Registry ℕ
a_done = (register_locked (tool "a") one_place).1

abbrev both_done : Registry ℕ
both_done = (register_locked (tool "b") a_done).1

race : Steps 2 (waiting []) (record { registry = both_done; pending = [] })
race = next (pass (tool "a") (waiting []) refl (omega arith)) (
    next (pass (tool "b") (waiting (tool "a" ∷ [])) refl (omega arith)) (
      next (finish (tool "b" ∷ []) [] (tool "a") one_place) (
        next (finish [] [] (tool "b") a_done)
          (stop (record { registry = both_done; pending = [] })))))

over_the_limit : count both_done ≡ 2
unfolding register_locked trim_space trim_left trim_right is_space has insert
over_the_limit = refl

count_bounded_example : count both_done < one_place.max_tools + 2
count_bounded_example =
    count_bounded 2 one_place (record { registry = both_done; pending = [] }) (omega arith)
      (omega arith) race
