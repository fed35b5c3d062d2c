-- ===== src/Schedule/Run/Ends.antt =====
-- The number of steps of a run.
use xgc_agent.Prelude.{
  ℕ, zero, suc, ◌+◌, ◌≤◌, ◌<◌, ◌≡◌, refl, ap, List, [], ◌∷◌, arith, count, nat_eq, string_eq,
}
use xgc_agent.Schedule.Graph.{Ptr, Node, pending, Scheduler}
use xgc_agent.Schedule.Lifecycle.{reset_for_run, reset_nodes, set_state}
use xgc_agent.Schedule.Run.{Config, Context, Reach, here, next_step, start_run}
use xgc_agent.Schedule.Run.Work.{visit, work, remaining, Pays, Step-remaining}
use xgc_agent.Schedule.Run.Fixed.{Step-SameNodes}

-- The number of steps of a path.
abbrev pub steps : {c d : Config} → Reach c d → ℕ
steps here = 0
steps (next_step r st) = suc (steps r)

-- The ranks fall along every edge, so the graph has no cycle.
abbrev pub Falls : (Ptr → ℕ) → (Ptr → Node) → Type 0
Falls rank heap = (p q : Ptr) → 0 < count q (heap p).next → rank q < rank p

visit_ext :
    (w v : Ptr → ℕ) (qs : List Ptr)
    → ((q : Ptr) → 0 < count q qs → w q ≡ v q)
    → visit w qs ≡ visit v qs
visit_ext w v [] same = refl
visit_ext w v (q ∷ qs) same =
    omega (arith, same q (ground arith), visit_ext w v qs λ r h. same r (ground arith))

module _ (heap : Ptr → Node) (rank : Ptr → ℕ) (f : Falls rank heap) where
  -- More edges than the rank allows are not walked.
  work_of_rank : (k j : ℕ) (p : Ptr) → rank p < k → rank p < j → work heap k p ≡ work heap j p
  unfolding work
  work_of_rank zero j p h g = absurd (omega arith)
  work_of_rank (suc k) zero p h g = absurd (omega arith)
  work_of_rank (suc k) (suc j) p h g = ap (◌+◌ 3) (
      visit_ext _ _ (heap p).next λ q e.
        let below : rank q < rank p = f p q e in work_of_rank k j q (omega arith) (omega arith))

  -- The steps that the message of a node can cause.
  abbrev rank_work : Ptr → ℕ
  rank_work p = work heap (suc (rank p)) p

  rank_work-Pays : Pays rank_work heap
  unfolding work
  rank_work-Pays p = omega (
    arith,
    visit_ext rank_work (work heap (rank p)) (heap p).next λ q e.
        let below : rank q < rank p = f p q e in
        work_of_rank (suc (rank q)) (rank p) q (omega arith) below,
  )

Pays-same :
    (w : Ptr → ℕ) (h h' : Ptr → Node)
    → ((p : Ptr) → (h' p).next ≡ (h p).next)
    → Pays w h
    → Pays w h'
Pays-same w h h' same v p = rw (same p) (v p)

next-reset_nodes :
    (m : List (ℕ × Ptr)) (h : Ptr → Node) (p : Ptr) → (reset_nodes m h p).next ≡ (h p).next
unfolding reset_nodes set_state
next-reset_nodes [] h p = refl
next-reset_nodes ((id, q) ∷ rest) h p =
    ground (arith, next-reset_nodes rest (set_state q pending h) p)

next-reset_for_run : (s : Scheduler) (p : Ptr) → ((reset_for_run s).heap p).next ≡ (s.heap p).next
unfolding reset_for_run set_state
next-reset_for_run s p =
    ground (arith, next-reset_nodes s.graph (set_state s.entry pending s.heap) p)

-- What a path has taken and what is left make up what there was.
steps_le :
    (w : Ptr → ℕ) {c d : Config} (r : Reach c d)
    → Pays w c.heap
    → (steps r + remaining w d ≤ remaining w c) × Pays w d.heap
steps_le w here v = (omega arith, v)
steps_le w {c} (next_step {d} {e} r st) v =
    let before : (steps r + remaining w d ≤ remaining w c) × Pays w d.heap = steps_le w r v in
    (
      omega (arith, before.0, Step-remaining w before.1 st),
      Pays-same w d.heap e.heap (λ p. (Step-SameNodes st p).0) before.1,
    )

-- Where the edges lead to smaller ranks, so that the graph has no cycle, a run is over after a number
-- of steps that the graph gives, whatever the interleaving of the control loop and the goroutines and
-- whatever the nodes' functions return: eight, and nine for each path of one edge or more that
-- starts at the entry.
pub run_ends :
    (s : Scheduler) (input : Context) (rank : Ptr → ℕ) {c : Config}
    → Falls rank s.heap
    → (r : Reach (start_run s input) c) → steps r ≤ 5 + work s.heap (suc (rank s.entry)) s.entry
unfolding start_run
run_ends s input rank {c} f r = omega (
  arith,
  (steps_le (rank_work s.heap rank f) r (
      Pays-same (rank_work s.heap rank f) s.heap (reset_for_run s).heap (next-reset_for_run s)
        (rank_work-Pays s.heap rank f))).0,
)
