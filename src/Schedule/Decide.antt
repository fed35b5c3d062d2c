-- ===== src/Schedule/Decide.antt =====
-- `scheduleNode` of schedule/graph.go: what the control loop does with the successor of a node that
-- is done. The states of the predecessors are read in one step.
use xgc_agent.Prelude.{
  ℕ, ◌+◌, ◌<◌, ◌≡◌, refl, ◌↔◌, ◌⊎◌, Bool, true, false, ◌&&◌, ◌==◌, ltb, List, [], ◌∷◌, arith,
  if◌then◌else◌, length, Bool-cases, inl, inr,
}
use xgc_agent.Schedule.Graph.{
  Ptr, Node, NodeState, pending, running, skipped, finished, failed, unknown, Error, node_failed,
  unknown_node_state,
}

-- How the loop over `node.Prev` ends.
pub data Scan : Type 0 where
  waits : Scan
  breaks : Error → Scan
  settles : ℕ → Scan

unfoldable pub scan : (Ptr → Node) → List Ptr → ℕ → Scan
scan heap [] count_skipped = settles count_skipped
scan heap (p ∷ ps) count_skipped = elim (heap p).state [
  | pending ↦ waits
  | running ↦ waits
  | failed ↦ breaks (node_failed (heap p).name)
  | skipped ↦ scan heap ps (count_skipped + 1)
  | finished ↦ scan heap ps count_skipped
  | unknown n ↦ breaks unknown_node_state
]

-- What is done with the node itself: nothing (`stays`, also where the compare-and-swap fails), an
-- error, a skip that is sent on, or a goroutine that executes it.
pub data Action : Type 0 where
  stays skips starts : Action
  refuses : Error → Action

abbrev pub is_pending : NodeState → Bool
is_pending pending = true
is_pending _ = false

unfoldable pub after_scan : Scan → Node → Action
after_scan waits node = stays
after_scan (breaks e) node = refuses e
after_scan (settles k) node =
    if ltb 0 k && k == length node.prev
    then skips
    else if is_pending node.state
    then starts
    else stays

unfoldable pub schedule_node : (Ptr → Node) → Ptr → Action
unfolding scan after_scan
schedule_node heap p = after_scan (scan heap (heap p).prev 0) (heap p)

abbrev pub is_skipped : NodeState → Bool
is_skipped skipped = true
is_skipped _ = false

abbrev pub is_settled : NodeState → Bool
is_settled skipped = true
is_settled finished = true
is_settled _ = false

module _ (heap : Ptr → Node) where
  -- Every node of the list has finished or was skipped.
  abbrev pub all_settled : List Ptr → Bool
  all_settled [] = true
  all_settled (p ∷ ps) = is_settled (heap p).state && all_settled ps

  abbrev pub all_skipped : List Ptr → Bool
  all_skipped [] = true
  all_skipped (p ∷ ps) = is_skipped (heap p).state && all_skipped ps

  abbrev pub skipped_count : List Ptr → ℕ
  skipped_count [] = 0
  skipped_count (p ∷ ps) =
      let rest = skipped_count ps in if is_skipped (heap p).state then rest + 1 else rest

  scan_settled :
      (ps : List Ptr) (k : ℕ)
      → all_settled ps ≡ true
      → scan heap ps k ≡ settles (k + skipped_count ps)
  unfolding scan
  scan_settled [] k h = ground arith
  scan_settled (p ∷ ps) k h = ground (arith, scan_settled ps k, scan_settled ps (k + 1))

  settled_of_scan : (ps : List Ptr) (k n : ℕ) → scan heap ps k ≡ settles n → all_settled ps ≡ true
  unfolding scan
  settled_of_scan [] k n h = refl
  settled_of_scan (p ∷ ps) k n h =
      ground (arith, settled_of_scan ps k n, settled_of_scan ps (k + 1) n)

  skipped_count_le : (ps : List Ptr) → skipped_count ps < length ps + 1
  skipped_count_le [] = omega arith
  skipped_count_le (p ∷ ps) = ground (arith, skipped_count_le ps)

  all_skipped_iff : (ps : List Ptr) → (skipped_count ps ≡ length ps) ↔ (all_skipped ps ≡ true)
  all_skipped_iff [] = ground arith
  all_skipped_iff (p ∷ ps) = ground (arith, all_skipped_iff ps, skipped_count_le ps)

  -- The three ways in which the loop over the predecessors ends.
  scan_cases :
      (ps : List Ptr)
      → ((all_settled ps ≡ true) × (scan heap ps 0 ≡ settles (skipped_count ps)))
        ⊎ ((all_settled ps ≡ false)
            × ((scan heap ps 0 ≡ waits) ⊎ ((e : Error) × (scan heap ps 0 ≡ breaks e))))
  scan_cases ps = elim (Bool-cases (all_settled ps)) [
    | inl all ↦ inl (all, ground (arith, scan_settled ps 0 all))
    | inr some_open ↦ inr (some_open, unsettled some_open (scan heap ps 0) refl)
  ]
    where
      unsettled :
          all_settled ps ≡ false
          → (r : Scan) → scan heap ps 0 ≡ r
          → (scan heap ps 0 ≡ waits) ⊎ ((e : Error) × (scan heap ps 0 ≡ breaks e))
      unsettled h waits e = inl e
      unsettled h (breaks x) e = inr (x, e)
      unsettled h (settles n) e = cc (settled_of_scan ps 0 n e)

  settled_of_skipped : (ps : List Ptr) → all_skipped ps ≡ true → all_settled ps ≡ true
  settled_of_skipped [] h = refl
  settled_of_skipped (p ∷ ps) h = ground (arith, settled_of_skipped ps)

abbrev pub is_empty {ℓ} : {A : Type ℓ} → List A → Bool
is_empty [] = true
is_empty (x ∷ xs) = false

empty_cases :
    (ps : List Ptr)
    → ((is_empty ps ≡ true) × (length ps ≡ 0)) ⊎ ((is_empty ps ≡ false) × (0 < length ps))
empty_cases [] = ground arith
empty_cases (p ∷ ps) = ground arith

-- A node is started exactly if it is pending, its predecessors have all finished or been skipped, and
-- not all of one or more predecessors were skipped.
pub starts_iff :
    (heap : Ptr → Node) (p : Ptr)
    → (schedule_node heap p ≡ starts) ↔ (
        (is_pending (heap p).state ≡ true)
        × (all_settled heap (heap p).prev ≡ true)
        × ((is_empty (heap p).prev ≡ true) ⊎ (all_skipped heap (heap p).prev ≡ false)))
unfolding schedule_node
starts_iff heap p = ground (
  arith,
  scan_cases heap (heap p).prev,
  all_skipped_iff heap (heap p).prev,
  skipped_count_le heap (heap p).prev,
  settled_of_skipped heap (heap p).prev,
  empty_cases (heap p).prev,
)

-- A node is skipped exactly if it has predecessors and they were all skipped.
pub skips_iff :
    (heap : Ptr → Node) (p : Ptr)
    → (schedule_node heap p ≡ skips)
      ↔ ((is_empty (heap p).prev ≡ false) × (all_skipped heap (heap p).prev ≡ true))
unfolding schedule_node
skips_iff heap p = ground (
  arith,
  scan_cases heap (heap p).prev,
  all_skipped_iff heap (heap p).prev,
  settled_of_skipped heap (heap p).prev,
  empty_cases (heap p).prev,
)

-- scheduleNode starts a node exactly if it is pending, its predecessors have all finished or been
-- skipped, and not all of one or more were skipped; it skips a node exactly if it has predecessors
-- and they were all skipped, whatever the node's own state is.
pub schedule_node_iff :
    (heap : Ptr → Node) (p : Ptr)
    → ((schedule_node heap p ≡ starts) ↔ (
        (is_pending (heap p).state ≡ true)
        × (all_settled heap (heap p).prev ≡ true)
        × ((is_empty (heap p).prev ≡ true) ⊎ (all_skipped heap (heap p).prev ≡ false))))
      × ((schedule_node heap p ≡ skips)
          ↔ ((is_empty (heap p).prev ≡ false) × (all_skipped heap (heap p).prev ≡ true)))
schedule_node_iff heap p = (starts_iff heap p, skips_iff heap p)
