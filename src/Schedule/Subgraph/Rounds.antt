-- ===== src/Schedule/Subgraph/Rounds.antt =====
-- The rounds of `Execute` of schedule/subgraph.go.
use xgc_agent.Prelude.{
  ◌≡◌, refl, ◌<◌, ◌≤◌, ◌⊎◌, some, ℕ, zero, suc, String, true, false, none, arith, Bool-cases,
  Option-cases, inl, inr,
}
use xgc_agent.Prelude.Maps.{Map}
use xgc_agent.Schedule.Subgraph.{SubGraphNode, Error, Outcome, done, failed, execute_once, execute}

module _ {Any W : Type 0} (s : SubGraphNode Any W) where
  -- So many rounds succeed under the condition, and then the condition is false or a round fails;
  -- with the outcome, and the parent's data and the world that are then left.
  abbrev pub EndsAfter : ℕ → Map String Any → W → Outcome Any × W → Type 0
  EndsAfter zero parent w ended =
      ((s.cond parent w ≡ false) × (ended ≡ (done parent, w)))
      ⊎ ((e : Error) × (s.cond parent w ≡ true)
          × ((execute_once s parent w).0 ≡ some e)
          × (ended ≡ (failed e (execute_once s parent w).1, (execute_once s parent w).2)))
  EndsAfter (suc k) parent w ended =
      (s.cond parent w ≡ true)
      × ((execute_once s parent w).0 ≡ none)
      × EndsAfter k (execute_once s parent w).1 (execute_once s parent w).2 ended

module _ {Any W : Type 0} (s : SubGraphNode Any W) (measure : Map String Any → W → ℕ)
    (progress : (parent : Map String Any) (w : W)
      → s.cond parent w ≡ true
      → (execute_once s parent w).0 ≡ none
      → measure (execute_once s parent w).1 (execute_once s parent w).2 < measure parent w) where
  -- Where each round that succeeds under the condition makes a measure of the parent's data and the
  -- world smaller, a loop that is given more rounds than the measure ends: after as many rounds that
  -- succeed under the condition, no more than the measure, the condition is false and the loop is
  -- done, or a round fails under the condition and the loop gives its error, with the parent's data
  -- and the world as these rounds leave them.
  pub execute-EndsAfter :
      (rounds : ℕ) (parent : Map String Any) (w : W)
      → measure parent w < rounds
      → (k : ℕ) × (k ≤ measure parent w) × EndsAfter s k parent w (execute s rounds parent w)
  unfolding execute
  execute-EndsAfter zero parent w h = absurd (omega arith)
  execute-EndsAfter (suc rounds) parent w h = elim (Bool-cases (s.cond parent w)) [
    | inr c ↦ rw (execute, c) (0, omega arith, inl (c, refl))
    | inl c ↦ elim (Option-cases (execute_once s parent w).0) [
      | inr (e, o) ↦ rw (execute, c, o) (0, omega arith, inr (e, c, o, refl))
      | inl o ↦
          let smaller = progress parent w c o in
          let rest =
            execute-EndsAfter rounds (execute_once s parent w).1 (execute_once s parent w).2
              (omega (arith, smaller)) in
          rw (execute, c, o) (suc rest.0, omega (arith, smaller, rest.1), (c, o, rest.2))
    ]
  ]
