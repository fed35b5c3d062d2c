-- ===== src/Schedule/Subgraph/Laws.antt =====
-- What one execution of a subgraph takes from the parent and leaves in it.
use xgc_agent.Prelude.{
  ◌≡◌, refl, subst, String, true, false, Option, none, some, [], ◌∷◌, ◌⊎◌, inl, inr, string_eq,
  arith, if◌then◌else◌, ◌=?◌, Option-cases, string_iff,
}
use xgc_agent.Prelude.Maps.{Map, lookup, insert, has, Distinct, lookup-insert, has-lookup}
use xgc_agent.Schedule.Subgraph.{
  SubGraphNode, Error, key_not_found, gather, export_key, export, finish, start, execute_once,
}

absent :
    (k j : String) (keys : Map String String)
    → has k keys ≡ false
    → (k =? j) ≡ true
    → lookup j keys ≡ none
absent k j keys h e =
    subst (λ l. lookup l keys ≡ none) ((string_iff k j).0 e) (ground (arith, has-lookup k keys))

module _ {Any : Type 0} where
  -- What a key of the one map has in the other, through the keys, else what it has already.
  abbrev pub through : Option String → Map String Any → Option Any → Option Any
  through none m old = old
  through (some k) m old = elim (lookup k m) [ none ↦ old | some x ↦ some x ]

  lookup-export_key :
      (j k : String) (o : Option Any) (parent : Map String Any)
      → lookup j (export_key k o parent) ≡ (
          if k =? j then (elim o [ none ↦ lookup j parent | some x ↦ some x ]) else lookup j parent)
  unfolding export_key
  lookup-export_key j k none parent = ground arith
  lookup-export_key j k (some x) parent = lookup-insert k j x parent

  lookup-export :
      (keys : Map String String) (sub parent : Map String Any) (j : String)
      → Distinct keys
      → lookup j (export keys sub parent) ≡ through (lookup j keys) sub (lookup j parent)
  unfolding export lookup
  lookup-export [] sub parent j d = refl
  lookup-export ((k, v) ∷ keys) sub parent j d = ground (
    arith,
    lookup-export keys sub (export_key k (lookup v sub) parent) j d.1,
    lookup-export_key j k (lookup v sub) parent,
    absent k j keys d.0,
  )

  -- The rest of the loop from the parent's value on.
  abbrev gather-from :
      String
      → String
      → Map String String
      → Map String Any
      → Map String Any
      → Option Any
      → Error ⊎ Map String Any
  gather-from k v keys parent input o = elim o [
    | none ↦ inl (key_not_found v)
    | some x ↦ gather keys parent (insert k x input)
  ]

  gather-none :
      (k v : String) (keys : Map String String) (parent input got : Map String Any)
      → lookup v parent ≡ none
      → gather ((k, v) ∷ keys) parent input ≡ inr got
      → ⊥
  unfolding gather
  gather-none k v keys parent input got n e = ground arith

  lookup-gather :
      (keys : Map String String) (parent input got : Map String Any) (j : String)
      → Distinct keys
      → gather keys parent input ≡ inr got
      → lookup j got ≡ through (lookup j keys) parent (lookup j input)
  unfolding gather lookup
  lookup-gather [] parent input got j d e = ground arith
  lookup-gather ((k, v) ∷ keys) parent input got j d e = elim (Option-cases (lookup v parent)) [
    | inl n ↦ absurd (gather-none k v keys parent input got n e)
    | inr (x, n) ↦
        let rest =
          lookup-gather keys parent (insert k x input) got j d.1
            (subst (λ o. gather-from k v keys parent input o ≡ inr got) n e) in
        ground (arith, rest, n, lookup-insert k j x input, absent k j keys d.0)
  ]

module _ {Any W : Type 0} (s : SubGraphNode Any W) where
  -- What an execution does, by its result.
  abbrev pub Executes : Map String Any → W → Option Error × Map String Any × W → Type 0
  Executes parent w (some e, after, w') = after ≡ parent
  Executes parent w (none, after, w') =
      (input : Map String Any) × (sub : Map String Any) × ((j : String)
        → lookup j input ≡ through (lookup j s.input_keys) parent none)
      × (s.run input w ≡ (inr sub, w'))
      × ((j : String) → lookup j after ≡ through (lookup j s.output_keys) sub (lookup j parent))

  finish-Executes :
      (parent input : Map String Any) (w : W) (r : (String ⊎ Map String Any) × W)
      → Distinct s.output_keys
      → ((j : String) → lookup j input ≡ through (lookup j s.input_keys) parent none)
      → s.run input w ≡ r
      → Executes parent w (finish s parent r)
  unfolding finish
  finish-Executes parent input w (inl e, w') d g r = refl
  finish-Executes parent input w (inr sub, w') d g r =
      (input, sub, g, r, λ j. lookup-export s.output_keys sub parent j d)

  start-Executes :
      (parent : Map String Any) (w : W) (g : Error ⊎ Map String Any)
      → Distinct s.input_keys
      → Distinct s.output_keys
      → gather s.input_keys parent [] ≡ g
      → Executes parent w (start s parent g w)
  unfolding start lookup
  start-Executes parent w (inl e) i o g = refl
  start-Executes parent w (inr input) i o g =
      finish-Executes parent input w (s.run input w) o
        (λ j. lookup-gather s.input_keys parent [] input j i g) refl

  -- An execution that fails leaves the parent's data as they were. Else the subgraph has run on
  -- exactly the parent's values of the input keys, each under the subgraph's key; what it has under
  -- the output keys is then the parent's, and all else of the parent's is as it was. The keys of
  -- each map are distinct.
  pub execute_once-Executes :
      (parent : Map String Any) (w : W)
      → Distinct s.input_keys
      → Distinct s.output_keys
      → Executes parent w (execute_once s parent w)
  unfolding execute_once
  execute_once-Executes parent w i o =
      start-Executes parent w (gather s.input_keys parent []) i o refl
