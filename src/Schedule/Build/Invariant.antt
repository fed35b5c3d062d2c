-- ===== src/Schedule/Build/Invariant.antt =====
-- What holds of a graph however it was built: its nodes are allocated, and the edges that do not
-- leave the entry are entered at both ends.
use xgc_agent.Prelude.{
  ℕ, ◌<◌, ◌≤◌, ◌≡◌, ◌≢◌, String, true, ◌==◌, nat_eq, Option, none, some, List, [], ◌∷◌, arith,
  if◌then◌else◌, count, count-append, Bool-cases, ap, subst, Option-cases, inl, inr, ◌||◌, ◌=?◌,
  string_eq,
}
use mathlib.Core.Option.{some-injective}
use xgc_agent.Prelude.Maps.{lookup, insert}
use xgc_agent.Schedule.Graph.{
  Ptr, NodeType, NodeFn, Scheduler, ok, allocate, register_node, append_next, append_prev, link,
  Result, err, virtual_edge, in_node_type_slice, conditional_virtual, conditional_virtual_node,
  is_conditional, add_edge, add_conditional_edge, add_conditional_node, add_sub_graph_node,
  set_entry, node_id, add_node, start_node_flag, end_node_id, end_node_flag,
}
use xgc_agent.Schedule.Lifecycle.{set_exit, new_scheduler}
use xgc_agent.Schedule.Lifecycle.Reset.{holds}
use xgc_agent.Schedule.Build.{
  Build, Builds, adds, adds_conditional, adds_sub_graph, adds_edge, adds_conditional_edge,
  sets_entry, sets_exit, done, then_build,
}

pub record Inv (s : Scheduler) : Type 0 where
  pub entry_allocated : s.entry < s.fresh
  pub graph_allocated : (p : Ptr) → holds p s.graph ≡ true → p < s.fresh
  pub next_allocated : (p q : Ptr) → s.fresh ≤ q → count q (s.heap p).next ≡ 0
  pub prev_allocated : (p q : Ptr) → s.fresh ≤ q → count q (s.heap p).prev ≡ 0
  pub mirrored : (p q : Ptr) → p ≢ s.entry → count q (s.heap p).next ≡ count p (s.heap q).prev

holds-insert :
    (p q : Ptr) (id : ℕ) (m : List (ℕ × Ptr))
    → holds p (insert id q m) ≡ true
    → (if q == p then true else holds p m) ≡ true
unfolding insert
holds-insert p q id [] h = h
holds-insert p q id ((j, r) ∷ m) h = ground (arith, holds-insert p q id m)

holds_of_lookup : (p : Ptr) (id : ℕ) (m : List (ℕ × Ptr)) → lookup id m ≡ some p → holds p m ≡ true
unfolding lookup
holds_of_lookup p id [] h = cc
holds_of_lookup p id ((j, r) ∷ m) h = ground (arith, holds_of_lookup p id m)

allocate-Inv :
    (name : String) (type : NodeType) (fn : NodeFn) (id : ℕ) (s : Scheduler)
    → Inv s
    → Inv (allocate name type fn id s).1
unfolding allocate
allocate-Inv name type fn id s v = record {
  entry_allocated = omega (arith, v.entry_allocated);
  graph_allocated = λ p h. omega (arith, v.graph_allocated p h);
  next_allocated = λ p q h. ground (arith, v.next_allocated p q);
  prev_allocated = λ p q h. ground (arith, v.prev_allocated p q);
  mirrored = λ p q h. ground (arith, v.mirrored p q, v.next_allocated p q, v.prev_allocated q p);
}

link-Inv :
    (from to : Ptr) (s : Scheduler) → from < s.fresh → to < s.fresh → Inv s → Inv (link from to s)
unfolding append_next append_prev
link-Inv from to s hf ht v = record {
  entry_allocated = v.entry_allocated;
  graph_allocated = v.graph_allocated;
  next_allocated =
      λ p q h. ground (arith, v.next_allocated p q h, count-append q (s.heap p).next (to ∷ []));
  prev_allocated =
      λ p q h. ground (arith, v.prev_allocated p q h, count-append q (s.heap p).prev (from ∷ []));
  mirrored = λ p q h. ground (
    arith,
    v.mirrored p q h,
    count-append q (s.heap p).next (to ∷ []),
    count-append p (s.heap q).prev (from ∷ []),
  );
}

register_node-Inv :
    (id : ℕ) (p : Ptr) (s : Scheduler) → p < s.fresh → Inv s → Inv (register_node id (p, s)).1
unfolding register_node
register_node-Inv id p s hp v = record {
  entry_allocated = v.entry_allocated;
  graph_allocated = λ q h. ground (arith, v.graph_allocated q, holds-insert q p id s.graph h);
  next_allocated = v.next_allocated;
  prev_allocated = v.prev_allocated;
  mirrored = v.mirrored;
}

id_gen-Inv : (n : ℕ) (s : Scheduler) → Inv s → Inv (record s { id_gen = n })
id_gen-Inv n s v = record {
  entry_allocated = v.entry_allocated;
  graph_allocated = v.graph_allocated;
  next_allocated = v.next_allocated;
  prev_allocated = v.prev_allocated;
  mirrored = v.mirrored;
}

set_entry-Inv : (p : Ptr) (s : Scheduler) → p < s.fresh → Inv s → Inv (set_entry p s)
unfolding set_entry
set_entry-Inv p s hp v = record {
  entry_allocated = v.entry_allocated;
  graph_allocated = v.graph_allocated;
  next_allocated =
      λ q r h. ground (arith, v.next_allocated q r h, count-append r (s.heap q).next (p ∷ []));
  prev_allocated = λ q r h. ground (arith, v.prev_allocated q r h);
  mirrored = λ q r h. ground (arith, v.mirrored q r h);
}

node_id-Inv : (name : String) (s : Scheduler) → Inv s → Inv (node_id name s).1
unfolding node_id
node_id-Inv name s v = elim (Bool-cases (name =? start_node_flag || name =? end_node_flag)) [
  | inl flag ↦ rw (flag, node_id) v
  | inr plain ↦ rw (plain, node_id) (id_gen-Inv _ s v)
]

ok-injective {ℓ} : {A : Type ℓ} {a b : A} → Result.ok a ≡ Result.ok b → a ≡ b
ok-injective {A} {a} e = ap from_ok e
  where
    from_ok : Result A → A
    from_ok (ok x) = x
    from_ok (err x) = a

add_node-Inv :
    (name : String) (type : NodeType) (fn : Option NodeFn) (s t : Scheduler) (p : Ptr)
    → add_node name type fn s ≡ ok (p, t)
    → Inv s
    → Inv t
unfolding add_node
add_node-Inv name type none s t p e v = cc
add_node-Inv name type (some fn) s t p e v = elim (Bool-cases (in_node_type_slice type)) [
  | inl accepted ↦ subst Inv (ap (λ r. r.1) (ok-injective (rw (accepted, add_node) at e))) (
      register_node-Inv id u.fresh (allocate name type fn id u).1 (omega arith)
        (allocate-Inv name type fn id u (node_id-Inv name s v)))
  | inr refused ↦ absurd (ground arith)
]
  where
    id : ℕ
    id = (node_id name s).0

    u : Scheduler
    u = (node_id name s).1

virtual_edge-Inv :
    (from to : Ptr) (tag : String) (s : Scheduler)
    → from < s.fresh
    → to < s.fresh
    → Inv s
    → Inv (virtual_edge from to tag s)
unfolding virtual_edge
virtual_edge-Inv from to tag s hf ht v = link-Inv s.fresh to _ (omega arith) (omega arith) (
    link-Inv from s.fresh _ (omega arith) (omega arith) (
      register_node-Inv _ s.fresh _ (omega arith)
        (allocate-Inv tag conditional_virtual conditional_virtual_node _ _ (id_gen-Inv _ s v))))

-- Every building operation keeps what follows of the graph: the entry and all nodes that edges or
-- the map name are allocated, and a node that is not the entry stands among the successors of
-- another as often as that one has it among its predecessors. The edges that leave the entry are
-- left out, since `SetEntry` enters its edge at one end only.
pub Build-Inv : {s t : Scheduler} → Build s t → Inv s → Inv t
unfolding add_conditional_node add_sub_graph_node add_edge add_conditional_edge set_exit
Build-Inv {s} (adds name type fn {p} {t} e) v = add_node-Inv name type fn s t p e v
Build-Inv {s} (adds_conditional name cond e) v =
    subst Inv (ap (λ r. r.1) e) (allocate-Inv name _ _ _ _ (id_gen-Inv _ s v))
Build-Inv {s} (adds_sub_graph name sub e) v =
    subst Inv (ap (λ r. r.1) e) (allocate-Inv name _ _ _ _ (id_gen-Inv _ s v))
Build-Inv {s} (adds_edge from to hf ht e) v =
    elim (Bool-cases (is_conditional (s.heap from).type)) [
      | inl refused ↦ absurd (ground arith)
      | inr accepted ↦
          subst Inv (ok-injective (rw (accepted, add_edge) at e)) (link-Inv from to s hf ht v)
    ]
Build-Inv {s} (adds_conditional_edge from to tag hf ht e) v =
    elim (Bool-cases (is_conditional (s.heap from).type)) [
      | inl accepted ↦
          subst Inv (ok-injective (rw (accepted, add_conditional_edge) at e))
            (virtual_edge-Inv from to tag s hf ht v)
      | inr refused ↦ absurd (ground arith)
    ]
Build-Inv {s} (sets_entry p hp e) v = subst Inv e (set_entry-Inv p s hp v)
Build-Inv {s} (sets_exit p {t} hp e) v = elim (Option-cases (lookup end_node_id s.graph)) [
  | inl missing ↦ absurd (ground arith)
  | inr (q, found) ↦
      subst Inv (some-injective _ _ (rw (found, set_exit) at e))
        (link-Inv p q s hp (v.graph_allocated q (holds_of_lookup q end_node_id s.graph found)) v)
]

pub Builds-Inv : {s t : Scheduler} → Builds s t → Inv s → Inv t
Builds-Inv done v = v
Builds-Inv (then_build bs b) v = Build-Inv b (Builds-Inv bs v)

pub new_scheduler-Inv : {s : Scheduler} → new_scheduler ≡ ok s → Inv s
unfolding new_scheduler insert
new_scheduler-Inv {s} e = subst Inv (ok-injective e) (record {
  entry_allocated = omega arith;
  graph_allocated = λ p h. ground arith;
  next_allocated = λ p q h. ground arith;
  prev_allocated = λ p q h. ground arith;
  mirrored = λ p q h. ground arith;
})
