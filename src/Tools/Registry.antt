-- ===== src/Tools/Registry.antt =====
-- `Registry` of tools/registry.go: tools by the trimmed name. A tool is what the interface `BaseTool`
-- shows of it: its name, description, schema and type.
pub mod Laws
pub mod Race
use xgc_agent.Prelude.{
  ℕ, String, Bool, true, false, Option, none, some, List, [], ◌∷◌, map, if◌then◌else◌, ltb, leb,
  length, ◌=?◌, string_eq, ◌⊎◌, inl, inr,
}
use xgc_agent.Prelude.Int.{ℤ, is_nonpos, to_ℕ}
use xgc_agent.Prelude.Maps.{Map, lookup, insert, delete, has}
use xgc_agent.Prelude.Sort.{sort}
use xgc_agent.Prelude.Text.{trim_space, before}

pub data ToolType : Type 0 where
  non_streaming streaming mcp : ToolType

-- `BaseTool`, over the type of the schemas.
pub record BaseTool (Schema : Type 0) : Type 0 where
  pub name : String
  pub description : String
  pub schema : Schema
  pub tool_type : ToolType

abbrev is_type : ToolType → ToolType → Bool
is_type non_streaming non_streaming = true
is_type streaming streaming = true
is_type mcp mcp = true
is_type _ _ = false

pub data Error : Type 0 where
  nil_tool empty_tool_name max_tools_reached : Error
  tool_already_register : String → Error

pub record Registry (Schema : Type 0) : Type 0 where
  pub tools : Map String (BaseTool Schema)
  pub max_tools : ℕ

unfoldable pub default_max_tools : ℕ
default_max_tools = 100

module _ {Schema : Type 0} where
  unfoldable pub new_registry : ℤ → Registry Schema
  unfolding default_max_tools
  new_registry max_tools = record {
    tools = [];
    max_tools = if is_nonpos max_tools then default_max_tools else to_ℕ max_tools;
  }

  abbrev pub count : Registry Schema → ℕ
  count r = length r.tools

  -- `Register` after the test of the number of tools, which it makes without the lock.
  unfoldable pub register_locked :
      BaseTool Schema → Registry Schema → Option Error × Registry Schema
  register_locked t r =
      let name = trim_space t.name in
      if name =? ""
      then (some empty_tool_name, r)
      else if has name r.tools
      then (some (tool_already_register name), r)
      else (none, record r { tools = insert name t r.tools })

  unfoldable pub register :
      Option (BaseTool Schema) → Registry Schema → Option Error × Registry Schema
  register none r = (some nil_tool, r)
  register (some t) r =
      if leb r.max_tools (count r) then (some max_tools_reached, r) else register_locked t r

  unfoldable pub unregister : String → Registry Schema → Bool × Registry Schema
  unregister given r =
      let name = trim_space given in
      if name =? ""
      then (false, r)
      else if has name r.tools
      then (true, record r { tools = delete name r.tools })
      else (false, r)

  unfoldable pub get : String → Registry Schema → Option (BaseTool Schema)
  get given r = let name = trim_space given in if name =? "" then none else lookup name r.tools

  unfoldable pub list : Registry Schema → List (BaseTool Schema)
  list r = sort (λ s t. before s.name t.name) (map (λ e. e.1) r.tools)

  unfoldable pub schemas : Registry Schema → List Schema
  schemas r = map (λ t. t.schema) (list r)

  -- `AsNonStreamingTool`, `AsStreamingTool` and `AsMCPTool`: the tool, if its type is the wanted
  -- one, or the name that the error says. The assertion on the Go type that follows is not
  -- modelled.
  unfoldable pub as_type : ToolType → BaseTool Schema → String ⊎ BaseTool Schema
  as_type wanted t = if is_type wanted t.tool_type then inr t else inl t.name
