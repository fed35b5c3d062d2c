-- ===== src/Memory/InMemory/Laws.antt =====
-- What the operations of the store do to the entry of a user and an id.
use mathlib.Core.List.{Perm}
use mathlib.Core.Option as Option
use xgc_agent.Prelude.{
  Option-cases, ℕ, suc, min, length-take, ◌≡◌, ◌≤◌, refl, sym, ap, ◌∙◌, subst, String, true, false,
  not, ◌&&◌, Option, none, some, List, [], ◌∷◌, arith, map, take, length, if◌then◌else◌, ◌=?◌,
  string_eq, string_iff, inl, inr, is_some,
}
use xgc_agent.Prelude.Int.{ℤ, is_nonpos, to_ℕ}
use xgc_agent.Prelude.Maps.{Map, lookup, insert, delete, lookup-insert, lookup-delete}
use xgc_agent.Prelude.Sort.{sort, IsSorted, sort-IsSorted, sort-perm, length-sort}
use xgc_agent.Memory.Item.{Memory, MemoryItem}
use xgc_agent.Memory.InMemory.{
  InMemoryStore, at_limit, create_memory_entry, items_of, put_items, add, update, update_entry,
  delete_item, clear, list, list_limit, newer,
}

list_limit_lem :
    (limit : ℤ) (n : ℕ) → list_limit limit n ≡ (if is_nonpos limit then n else min (to_ℕ limit) n)
unfolding list_limit
list_limit_lem limit n = ground arith

list_limit-le : (limit : ℤ) (n : ℕ) → list_limit limit n ≤ n
unfolding list_limit
list_limit-le limit n = ground arith

module _ {Any : Type 0} where
  -- The entry of a user and an id.
  abbrev pub find : String → String → InMemoryStore Any → Option (MemoryItem Any)
  find user_id memory_id s = lookup memory_id (items_of user_id s)

  pub items_of-put_items :
      (user other : String) (items : Map String (MemoryItem Any)) (s : InMemoryStore Any)
      → items_of other (put_items user items s)
        ≡ (if user =? other then items else items_of other s)
  unfolding items_of put_items
  items_of-put_items user other items s = ground (arith, lookup-insert user other items s.memories)

  pub items_of-clear :
      (user other : String) (s : InMemoryStore Any)
      → items_of other (clear user s).1
        ≡ (if not (user =? "") && user =? other then [] else items_of other s)
  unfolding items_of clear
  items_of-clear user other s = ground (arith, lookup-delete user other s.memories)

  -- `Add` fails exactly for an empty user and for a user who has as many entries as the limit. It
  -- stores the new entry under its id, and leaves every other entry of every user.
  pub find-add :
      (print : Any → String) (sha256 : String → String) (now : ℕ) (user : String)
      (memory : Memory Any) (s : InMemoryStore Any) (other id : String)
      → let entry = create_memory_entry print sha256 now user memory in
        let taken = not (user =? "") && not (at_limit (length (items_of user s)) s.memory_limit) in
        (is_some (add print sha256 now user memory s).0 ≡ not taken)
        × (find other id (add print sha256 now user memory s).1 ≡ (
            if taken && user =? other && entry.memory_id =? id
            then some entry
            else find other id s))
  unfolding add
  find-add print sha256 now user memory s other id =
      let entry = create_memory_entry print sha256 now user memory in
      ground (
        arith,
        items_of-put_items user other (insert entry.memory_id entry (items_of user s)) s,
        lookup-insert entry.memory_id id entry (items_of user s),
        string_iff user other,
        ap (λ u. find u id s) {x = user} {y = other},
      )

  -- `Update` fails exactly for an empty user, an empty id or a missing entry. It replaces the
  -- memory and the time of the update in that entry, and leaves every other one.
  pub find-update :
      (now : ℕ) (user key : String) (memory : Memory Any) (s : InMemoryStore Any)
      (other id : String)
      → let there = not (user =? "") && not (key =? "") && is_some (find user key s) in
        (is_some (update now user key memory s).0 ≡ not there)
        × (find other id (update now user key memory s).1 ≡ (
            if there && user =? other && key =? id
            then Option.map {A = MemoryItem Any}
                (λ entry. record entry { memory = some memory; updated_at = now })
                (find other id s)
            else find other id s))
  unfolding update update_entry
  find-update now user key memory s other id = elim (Option-cases (find user key s)) [
    | inl absent ↦ rw absent (ground (arith, absent))
    | inr (entry, there) ↦ ground (
      arith,
      there,
      items_of-put_items user other (insert key (update_entry now memory entry) (items_of user s))
          s,
      lookup-insert key id (update_entry now memory entry) (items_of user s),
      string_iff user other,
      string_iff key id,
      ap (λ u. find u id s) {x = user} {y = other},
      ap (λ k. find user k s) {x = key} {y = id},
    )
  ]

  -- `Delete` fails exactly for an empty user, an empty id or a missing entry. It removes that entry,
  -- and leaves every other one.
  pub find-delete_item :
      (user key : String) (s : InMemoryStore Any) (other id : String)
      → let there = not (user =? "") && not (key =? "") && is_some (find user key s) in
        (is_some (delete_item user key s).0 ≡ not there)
        × (find other id (delete_item user key s).1
            ≡ (if there && user =? other && key =? id then none else find other id s))
  unfolding delete_item
  find-delete_item user key s other id = ground (
    arith,
    items_of-put_items user other (delete key (items_of user s)) s,
    lookup-delete key id (items_of user s),
    string_iff user other,
    string_iff key id,
    ap (λ u. find u id s) {x = user} {y = other},
    ap (λ k. find user k s) {x = key} {y = id},
  )

  newer_asym : (a b : MemoryItem Any) → newer a b ≡ true → newer b a ≡ false
  unfolding newer
  newer_asym a b h = ground arith

  length-map : (m : Map String (MemoryItem Any)) → length (map (λ e. e.1) m) ≡ length m
  length-map [] = refl
  length-map (x ∷ m) = ap suc (length-map m)

  -- For a user who is not empty, `List` gives as many entries as the limit and the user's entries
  -- allow, of those that the loop over the map meets first, the newest first. The loop is taken to
  -- meet as many entries as there are.
  pub list_lem :
      (order : Map String (MemoryItem Any) → Map String (MemoryItem Any)) (user : String)
      (limit : ℤ) (s : InMemoryStore Any)
      → (user =? "") ≡ false
      → length (order (items_of user s)) ≡ length (items_of user s)
      → (out : List (MemoryItem Any)) × (list order user limit s ≡ inr out)
        × (length out ≡ (
            if is_nonpos limit
            then length (items_of user s)
            else min (to_ℕ limit) (length (items_of user s))))
        × Perm out (take (length out) (map (λ e. e.1) (order (items_of user s))))
        × IsSorted newer out
  unfolding list
  list_lem order user limit s h whole = (
    sort newer first,
    rw h refl,
    counted ∙ list_limit_lem limit (length (items_of user s)),
    subst (λ n. Perm (sort newer first) (take n met)) (sym counted) (sort-perm newer first),
    sort-IsSorted newer newer_asym first,
  )
    where
      met : List (MemoryItem Any)
      met = map (λ e. e.1) (order (items_of user s))

      first : List (MemoryItem Any)
      first = take (list_limit limit (length (items_of user s))) met

      counted : length (sort newer first) ≡ list_limit limit (length (items_of user s))
      counted =
          length-sort newer first
          ∙ omega (
            arith,
            length-take (list_limit limit (length (items_of user s))) met,
            length-map (order (items_of user s)),
            whole,
            list_limit-le limit (length (items_of user s)),
          )
