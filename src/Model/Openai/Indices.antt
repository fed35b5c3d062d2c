-- ===== src/Model/Openai/Indices.antt =====
-- The indices of the tool calls of a streamed completion.
use mathlib.Core.Option.{some-injective}
use xgc_agent.Prelude.{
  ◌≡◌, refl, ap, sym, subst, ◌∙◌, ℕ, zero, suc, String, Bool, false, ◌&&◌, Option, none, some, List,
  [], ◌∷◌, ◌++◌, arith, inl, inr, if◌then◌else◌, ◌=?◌, string_eq, nat_eq, get_elem?, string_iff,
  Bool-cases,
}
use xgc_agent.Prelude.Maps.{Map, lookup, insert, lookup-insert}
use xgc_agent.Message.{ToolCall}
use xgc_agent.Model.Openai.Reply.{CompletionCall, new_call}
use xgc_agent.Model.Openai.Chunks.{
  Chunk, ChunkChoice, ChunkCall, IdMaps, mapping, update_with, update_choice, update_choices,
  update_tool_call_index_mapping, call_index, generate_tool_calls,
}

-- The index that a delta of a choice gives for an id: that of its first tool call.
abbrev pub announces_in : ℕ → List ChunkCall → ℕ → String → Option ℕ
announces_in position [] choice id = none
announces_in position (call ∷ calls) choice id =
    if position =? choice && call.id =? id then some call.position else none

abbrev pub announces : ChunkChoice → ℕ → String → Option ℕ
announces ch choice id = announces_in ch.position ch.tool_calls choice id

abbrev pub or_else : Option ℕ → Option ℕ → Option ℕ
or_else none o = o
or_else (some i) o = some i

-- The index that the last of the deltas that have the id gives for it.
abbrev pub announced : List ChunkChoice → ℕ → String → Option ℕ
announced [] choice id = none
announced (ch ∷ chs) choice id = or_else (announced chs choice id) (announces ch choice id)

abbrev pub deltas : List Chunk → List ChunkChoice
deltas [] = []
deltas (chunk ∷ chunks) = chunk.choices ++ deltas chunks

-- The maps after the chunks.
abbrev pub mapped : List Chunk → IdMaps → IdMaps
mapped [] ids = ids
mapped (chunk ∷ chunks) ids = mapped chunks (update_tool_call_index_mapping chunk ids)

mapping-insert :
    (c choice : ℕ) (m : Map String ℕ) (ids : IdMaps)
    → mapping choice (insert c m ids) ≡ (if c =? choice then m else mapping choice ids)
unfolding mapping
mapping-insert c choice m ids = ground (arith, lookup-insert c choice m ids)

update_with_lem :
    (c : ℕ) (calls : List ChunkCall) (ids : IdMaps) (choice : ℕ) (id : String)
    → (id =? "") ≡ false
    → lookup id (mapping choice (update_with c calls ids))
      ≡ or_else (announces_in c calls choice id) (lookup id (mapping choice ids))
unfolding update_with
update_with_lem c [] ids choice id h = refl
update_with_lem c (call ∷ calls) ids choice id h = ground (
  arith,
  mapping-insert c choice
      (if call.id =? "" then mapping c ids else insert call.id call.position (mapping c ids)) ids,
  lookup-insert call.id id call.position (mapping c ids),
  string_iff call.id "",
  string_iff call.id id,
  string_iff id "",
)

update_choice_lem :
    (ch : ChunkChoice) (ids : IdMaps) (choice : ℕ) (id : String)
    → (id =? "") ≡ false
    → lookup id (mapping choice (update_choice ch ids))
      ≡ or_else (announces ch choice id) (lookup id (mapping choice ids))
unfolding update_choice
update_choice_lem ch ids choice id h = update_with_lem ch.position ch.tool_calls ids choice id h

update_choices_lem :
    (chs : List ChunkChoice) (ids : IdMaps) (choice : ℕ) (id : String)
    → (id =? "") ≡ false
    → lookup id (mapping choice (update_choices chs ids))
      ≡ or_else (announced chs choice id) (lookup id (mapping choice ids))
unfolding update_choices
update_choices_lem [] ids choice id h = refl
update_choices_lem (ch ∷ chs) ids choice id h = ground (
  arith,
  update_choices_lem chs (update_choice ch ids) choice id h,
  update_choice_lem ch ids choice id h,
)

update_choices-append :
    (xs ys : List ChunkChoice) (ids : IdMaps)
    → update_choices (xs ++ ys) ids ≡ update_choices ys (update_choices xs ids)
unfolding update_choices
update_choices-append [] ys ids = refl
update_choices-append (x ∷ xs) ys ids = update_choices-append xs ys (update_choice x ids)

mapped-update_choices :
    (chunks : List Chunk) (ids : IdMaps) → mapped chunks ids ≡ update_choices (deltas chunks) ids
unfolding update_tool_call_index_mapping update_choices
mapped-update_choices [] ids = refl
mapped-update_choices (chunk ∷ chunks) ids =
    mapped-update_choices chunks (update_choices chunk.choices ids)
    ∙ sym (update_choices-append chunk.choices (deltas chunks) ids)

place-call_index :
    (i : ℕ) (id : String) (ids : Map String ℕ) (j : ℕ)
    → (id =? "") ≡ false
    → lookup id ids ≡ some j
    → call_index i id ids ≡ j
unfolding call_index
place-call_index i id ids j h l = rw (h, l) refl

module _ {Any : Type 0} (bytes_of : String → List ℕ) where
  new_call-position :
      (c : CompletionCall) (i : ℕ) (ids : Map String ℕ) (tc : ToolCall Any) (j : ℕ)
      → new_call bytes_of (some (call_index i c.id ids)) c ≡ tc
      → (tc.id =? "") ≡ false
      → lookup tc.id ids ≡ some j
      → tc.position ≡ some j
  unfolding call_index new_call
  new_call-position c i ids tc j e h l =
      let same : c.id ≡ tc.id = ap (λ t. t.id) e in
      sym (ap (λ t. t.position) e)
      ∙ ap some (
          place-call_index i c.id ids j (ap (λ s. s =? "") same ∙ h)
            (ap (λ s. lookup s ids) same ∙ l))

  at_place :
      (c : CompletionCall) (calls : List CompletionCall) (i : ℕ) (ids : Map String ℕ) (k : ℕ)
      (tc : ToolCall Any) (j : ℕ)
      → get_elem?
          (new_call bytes_of (some (call_index i c.id ids)) c
            ∷ generate_tool_calls bytes_of (suc i) calls ids)
          k
        ≡ some tc
      → (tc.id =? "") ≡ false
      → lookup tc.id ids ≡ some j
      → ((n : ℕ)
          → get_elem? (generate_tool_calls bytes_of (suc i) calls ids) n ≡ some tc
          → tc.position ≡ some j)
      → tc.position ≡ some j
  at_place c calls i ids zero tc j e h l rest =
      new_call-position c i ids tc j (some-injective _ _ e) h l
  at_place c calls i ids (suc k) tc j e h l rest = rest k e

  generate_tool_calls_lem :
      (calls : List CompletionCall) (i : ℕ) (ids : Map String ℕ) (k : ℕ) (tc : ToolCall Any) (j : ℕ)
      → get_elem? (generate_tool_calls bytes_of i calls ids) k ≡ some tc
      → (tc.id =? "") ≡ false
      → lookup tc.id ids ≡ some j
      → tc.position ≡ some j
  unfolding generate_tool_calls call_index new_call
  generate_tool_calls_lem [] i ids k tc j e h l = cc
  generate_tool_calls_lem (c ∷ calls) i ids k tc j e h l =
      elim (Bool-cases (c.name =? "" && c.id =? "")) [
        | inl b ↦
            generate_tool_calls_lem calls (suc i) ids k tc j
              (subst
                (λ (v : Bool).
                  get_elem?
                    (if v
                      then generate_tool_calls bytes_of (suc i) calls ids
                      else new_call bytes_of (some (call_index i c.id ids)) c
                        ∷ generate_tool_calls bytes_of (suc i) calls ids)
                    k
                  ≡ some tc)
                b e)
              h l
        | inr b ↦
            at_place c calls i ids k tc j
              (subst
                (λ (v : Bool).
                  get_elem?
                    (if v
                      then generate_tool_calls bytes_of (suc i) calls ids
                      else new_call bytes_of (some (call_index i c.id ids)) c
                        ∷ generate_tool_calls bytes_of (suc i) calls ids)
                    k
                  ≡ some tc)
                b e)
              h l (λ n f. generate_tool_calls_lem calls (suc i) ids n tc j f h l)
      ]

  -- Take the chunks whose delta for this choice has the id of a tool call of the last response, not
  -- empty, in the first of the delta's tool calls, the only one that the code looks at. If there are
  -- any, the tool call has the index that the last of them gives there.
  pub generate_tool_calls-announced :
      (chunks : List Chunk) (choice : ℕ) (calls : List CompletionCall) (k : ℕ) (tc : ToolCall Any)
      (j : ℕ)
      → get_elem? (generate_tool_calls bytes_of 0 calls (mapping choice (mapped chunks []))) k
        ≡ some tc
      → (tc.id =? "") ≡ false
      → announced (deltas chunks) choice tc.id ≡ some j
      → tc.position ≡ some j
  generate_tool_calls-announced chunks choice calls k tc j e h a =
      generate_tool_calls_lem calls 0 (mapping choice (mapped chunks [])) k tc j e h (
        ap (λ ids. lookup tc.id (mapping choice ids)) (mapped-update_choices chunks [])
        ∙ update_choices_lem (deltas chunks) [] choice tc.id h
        ∙ ap (λ o. or_else o (lookup tc.id (mapping choice []))) a)
