-- ===== src/Tools/Registry/Race.antt =====
-- Callers that register at the same time: `Register` tests the number of tools under a lock that it
-- gives back before it takes the lock for the rest.
use xgc_agent.Prelude.{
  ℕ, suc, ◌+◌, ◌≤◌, ◌<◌, ◌≡◌, refl, ◌∙◌, String, false, List, [], ◌∷◌, ◌++◌, arith, leb, length,
  length-append, string_eq,
}
use xgc_agent.Prelude.Maps.{length-insert, length-delete-le}
use xgc_agent.Prelude.Text.{trim_space}
use xgc_agent.Tools.Registry.{Registry, BaseTool, count, register_locked, unregister}

-- The registry, and the tools of the calls that have passed the test.
pub record Shared (Schema : Type 0) : Type 0 where
  pub registry : Registry Schema
  pub pending : List (BaseTool Schema)

-- One step of one of the callers, of whom at most `callers` are between the two locks.
pub data Step {Schema : Type 0} (callers : ℕ) : Shared Schema → Shared Schema → Type 0 where
  pass :
      (t : BaseTool Schema) (s : Shared Schema)
      → leb s.registry.max_tools (count s.registry) ≡ false
      → suc (length s.pending) ≤ callers
      → Step callers s (record s { pending = t ∷ s.pending })
  finish :
      (early late : List (BaseTool Schema)) (t : BaseTool Schema) (r : Registry Schema)
      → Step callers
          (record { registry = r; pending = early ++ t ∷ late })
          (record { registry = (register_locked t r).1; pending = early ++ late })
  take_out :
      (name : String) (s : Shared Schema)
      → Step callers s (record s { registry = (unregister name s.registry).1 })

pub data Steps {Schema : Type 0} (callers : ℕ) : Shared Schema → Shared Schema → Type 0 where
  stop : (s : Shared Schema) → Steps callers s s
  next : {s t u : Shared Schema} → Step callers s t → Steps callers t u → Steps callers s u

module _ {Schema : Type 0} where
  count-register_locked :
      (t : BaseTool Schema) (r : Registry Schema)
      → (count (register_locked t r).1 ≤ count r + 1)
        × ((register_locked t r).1.max_tools ≡ r.max_tools)
  unfolding register_locked
  count-register_locked t r = ground (arith, length-insert (trim_space t.name) t r.tools)

  count-unregister :
      (name : String) (r : Registry Schema)
      → (count (unregister name r).1 ≤ count r) × ((unregister name r).1.max_tools ≡ r.max_tools)
  unfolding unregister
  count-unregister name r = ground (arith, length-delete-le (trim_space name) r.tools)

  module _ (callers : ℕ) where
    IsBounded : ℕ → Shared Schema → Type 0
    IsBounded max s =
        (s.registry.max_tools ≡ max) × (count s.registry + length s.pending < max + callers)

    Step-IsBounded :
        (max : ℕ) (s t : Shared Schema) → Step callers s t → IsBounded max s → IsBounded max t
    unfolding IsBounded
    Step-IsBounded max _ _ (pass t s e h) b = ground (arith, b, h, e)
    Step-IsBounded max _ _ (finish early late t r) b =
        let c = count-register_locked t r in
        (
          c.1 ∙ b.0,
          omega (arith, c.0, b.1, length-append early (t ∷ late), length-append early late),
        )
    Step-IsBounded max _ _ (take_out name s) b =
        let c = count-unregister name s.registry in (c.1 ∙ b.0, omega (arith, c.0, b.1))

    Steps-IsBounded :
        (max : ℕ) (s t : Shared Schema) → Steps callers s t → IsBounded max s → IsBounded max t
    Steps-IsBounded max _ _ (stop s) b = b
    Steps-IsBounded max _ _ (next {s = s} {t = t} {u = u} x xs) b =
        Steps-IsBounded max t u xs (Step-IsBounded max s t x b)

  -- However the calls of Register and Unregister interleave, while no more than a number of callers
  -- are between the two locks of Register at once, the registry exceeds its limit by less than
  -- this number, if it starts within the limit and with no call under way: one caller at a time
  -- keeps the limit.
  pub count_bounded :
      (callers : ℕ) (r : Registry Schema) (t : Shared Schema)
      → 1 ≤ callers
      → count r ≤ r.max_tools
      → Steps callers (record { registry = r; pending = [] }) t
      → count t.registry < r.max_tools + callers
  unfolding IsBounded
  count_bounded callers r t h c steps =
      let b =
        Steps-IsBounded callers r.max_tools (record { registry = r; pending = [] }) t steps
          (refl, omega arith) in
      omega (arith, b.1)
