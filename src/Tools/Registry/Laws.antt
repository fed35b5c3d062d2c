-- ===== src/Tools/Registry/Laws.antt =====
-- What a registry gives back.
use xgc_agent.Prelude.{
  ◌≡◌, String, false, not, ◌&&◌, none, some, arith, if◌then◌else◌, ltb, ◌=?◌, string_eq, string_iff,
  is_some,
}
use xgc_agent.Prelude.Maps.{lookup-insert, lookup-delete, has-lookup}
use xgc_agent.Prelude.Text.{trim_space}
use xgc_agent.Tools.Registry.{Registry, BaseTool, count, register, register_locked, unregister, get}

module _ {Schema : Type 0} where
  -- `Register` takes a tool exactly if the registry is not full, the trimmed name is not empty and no
  -- tool is found under it. It is then found under every spelling of its name, and every other name
  -- gives what it gave; a call that fails changes nothing.
  pub get-register :
      (t : BaseTool Schema) (r : Registry Schema) (given : String)
      → let taken =
          ltb (count r) r.max_tools
          && not (trim_space t.name =? "")
          && not (is_some (get t.name r)) in
        (is_some (register (some t) r).0 ≡ not taken)
        × (get given (register (some t) r).1
            ≡ (if taken && trim_space given =? trim_space t.name then some t else get given r))
        × ((taken ≡ false) → (register (some t) r).1 ≡ r)
  unfolding register register_locked get
  get-register t r given = ground (
    arith,
    has-lookup (trim_space t.name) r.tools,
    lookup-insert (trim_space t.name) (trim_space given) t r.tools,
    string_iff (trim_space t.name) (trim_space given),
    string_iff (trim_space given) (trim_space t.name),
  )

  -- `Unregister` reports whether a tool is found under the name, and from then on none is; every
  -- other name gives what it gave.
  pub get-unregister :
      (name : String) (r : Registry Schema) (given : String)
      → ((unregister name r).0 ≡ is_some (get name r))
        × (get given (unregister name r).1
            ≡ (if trim_space given =? trim_space name then none else get given r))
  unfolding unregister get
  get-unregister name r given = ground (
    arith,
    has-lookup (trim_space name) r.tools,
    lookup-delete (trim_space name) (trim_space given) r.tools,
    string_iff (trim_space name) (trim_space given),
    string_iff (trim_space given) (trim_space name),
    string_iff (trim_space name) "",
    string_iff (trim_space given) "",
  )
