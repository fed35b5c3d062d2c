-- ===== src/Session/State/RoundTrip.antt =====
-- What a saved session has when it is loaded, and what a load that fails leaves.
use xgc_agent.Prelude.{
  ℕ, ◌==◌, ◌≡◌, refl, sym, ap, ◌∙◌, subst, false, Option, none, some, [], arith, length, ◌=?◌,
  string_eq, ◌⊎◌, inl, inr, ◌≤◌, Option-cases,
}
use xgc_agent.Prelude.Int.{is_nonpos}
use xgc_agent.Prelude.Text.{trim_space}
use xgc_agent.Session.Buffer.{
  Buffer, new_buffer, default_tokenizer, append_all, token_count, exceeds,
}
use xgc_agent.Session.Buffer.Window.{append_all-window}
use xgc_agent.Session.State.{
  Error, restore_failed, Bytes, Session, SessionState, Platform, SessionStore, history_messages,
  buffer_size, snapshot,
}
use xgc_agent.Session.State.Persist.{
  state_of, dump, snapshot_scheduler, finish_load, load_state, load, save, load_from_storage,
  or_new,
}

module _ {Any Scheduler Registry : Type 0} where
  -- A session of the program: its names are not blank, it has a scheduler and a creation time, and
  -- its history counts tokens in the default way, within a positive limit.
  pub record IsReady (s : Session Any Scheduler Registry) (b : Buffer Any) : Type 0 where
    pub named : (trim_space s.id =? "") ≡ false
    pub owned : (trim_space s.user_id =? "") ≡ false
    pub buffered : s.history ≡ some b
    pub bounded : is_nonpos b.max_tokens ≡ false
    pub counted : b.tokenizer ≡ default_tokenizer
    pub window :
        (exceeds (token_count default_tokenizer b.messages) b.max_tokens ≡ false)
        ⊎ (length b.messages ≤ 1)
    pub created : (s.created_at == 0) ≡ false
    pub updated : (s.updated_at == 0) ≡ false

  -- A call went without error and left what the session `s` shows and remembers.
  pub IsLoaded :
      Session Any Scheduler Registry → Option Error × Session Any Scheduler Registry → Type 0
  IsLoaded s (e, t) = (e ≡ none) × (snapshot t ≡ snapshot s) × (t.history ≡ s.history)

module _ {Any Scheduler Scheduled Registry : Type 0} where
  -- The scheduler of this session can be saved, and its state with it is encoded to bytes, not none,
  -- from which it is decoded as it was.
  pub record IsEncoded (env : Platform Any Scheduler Scheduled Registry)
      (s : Session Any Scheduler Registry) (scheduled : Option Scheduled) (bytes : Bytes)
      : Type 0 where
    pub snapshots : snapshot_scheduler env s.scheduler ≡ some scheduled
    pub encodes : env.marshal (state_of s scheduled) ≡ some bytes
    pub decodes : env.unmarshal bytes ≡ some (state_of s scheduled)
    pub not_empty : (length bytes == 0) ≡ false

  -- The saved scheduler, if there is one, is restored without error into that of the session `t`.
  abbrev pub IsRestored :
      Platform Any Scheduler Scheduled Registry
      → Option Scheduled
      → Session Any Scheduler Registry
      → Type 0
  IsRestored env none t = Unit
  IsRestored env (some y) t = (z : Scheduler) × (env.restore y (or_new env t.scheduler) ≡ some z)

  module _ (env : Platform Any Scheduler Scheduled Registry) (now : ℕ)
      (s t : Session Any Scheduler Registry) (b : Buffer Any) (r : IsReady s b) where
    replayed :
        append_all b.messages
          (record { messages = []; max_tokens = b.max_tokens; tokenizer = default_tokenizer })
        ≡ b
    replayed =
        append_all-window b.messages b.max_tokens default_tokenizer r.window
        ∙ ap (λ k. record { messages = b.messages; max_tokens = b.max_tokens; tokenizer = k })
            (sym r.counted)

    load_state-state_of :
        (scheduled : Option Scheduled)
        → IsRestored env scheduled t
        → IsLoaded s (load_state env now (state_of s scheduled) t)
    unfolding load_state state_of snapshot buffer_size history_messages finish_load new_buffer
        IsLoaded
    load_state-state_of none z =
        rw (r.buffered, r.bounded, r.created, r.updated, r.bounded, replayed) (refl, refl, refl)
    load_state-state_of (some y) z =
        rw (load_state, z.1, r.buffered, r.bounded, r.created, r.updated, r.bounded, replayed)
          (refl, refl, refl)

    load-encoded :
        (scheduled : Option Scheduled) (bytes : Bytes)
        → IsEncoded env s scheduled bytes
        → IsRestored env scheduled t
        → IsLoaded s (load env now bytes t)
    unfolding load state_of
    load-encoded scheduled bytes e z =
        rw (e.not_empty, e.decodes, r.named, r.owned) (load_state-state_of scheduled z)

    dump-encoded :
        (scheduled : Option Scheduled) (bytes : Bytes)
        → IsEncoded env s scheduled bytes
        → dump env s ≡ inr bytes
    unfolding dump
    dump-encoded scheduled bytes e = rw (dump, e.snapshots, e.encodes) refl

  load_state_keeps :
      (env : Platform Any Scheduler Scheduled Registry) (now : ℕ)
      (state : SessionState Any Scheduled) (s : Session Any Scheduler Registry)
      → ((load_state env now state s).0 ≡ none)
        ⊎ ((load_state env now state s).0 ≡ some restore_failed)
  unfolding load_state
  load_state_keeps env now state s = by_scheduler state.scheduler refl
    where
      by_scheduler :
          (y : Option Scheduled)
          → state.scheduler ≡ y
          → ((load_state env now state s).0 ≡ none)
            ⊎ ((load_state env now state s).0 ≡ some restore_failed)
      by_scheduler none e = inl (rw (load_state, e) refl)
      by_scheduler (some y) e = elim (Option-cases (env.restore y (or_new env s.scheduler))) [
        | inl f ↦ inr (rw (load_state, e, f) refl)
        | inr (z, f) ↦ inl (rw (load_state, e, f) refl)
      ]

  -- `Load` succeeds, or leaves the session as it was, or the scheduler's state cannot be restored.
  pub load_error_keeps :
      (env : Platform Any Scheduler Scheduled Registry) (now : ℕ) (bytes : Bytes)
      (s : Session Any Scheduler Registry)
      → ((load env now bytes s).0 ≡ none)
        ⊎ ((load env now bytes s).1 ≡ s)
        ⊎ ((load env now bytes s).0 ≡ some restore_failed)
  unfolding load
  load_error_keeps env now bytes s = elim (Option-cases (env.unmarshal bytes)) [
    | inl e ↦ ground (arith, e)
    | inr (state, e) ↦ ground (arith, e, load_state_keeps env now state s)
  ]

  module _ {Store : Type 0} (store : SessionStore Store) where
    -- What is saved in a store and comes back from it is loaded.
    pub load_from_storage-save :
        (env : Platform Any Scheduler Scheduled Registry) (now : ℕ)
        (s t : Session Any Scheduler Registry) (b : Buffer Any) (scheduled : Option Scheduled)
        (bytes : Bytes) (kept kept' : Store)
        → IsReady s b
        → IsEncoded env s scheduled bytes
        → IsRestored env scheduled t
        → trim_space s.id ≡ s.id
        → store.save s.id bytes kept ≡ some kept'
        → store.load s.id kept' ≡ some bytes
        → ((save store env s kept).0 ≡ none)
          × IsLoaded s (load_from_storage store env now s.id (save store env s kept).1 t)
    unfolding save load_from_storage
    load_from_storage-save env now s t b scheduled bytes kept kept' r x z trimmed saves loads =
        rw (save, dump-encoded env now s t b r scheduled bytes x, r.named, saves)
          (
            refl,
            rw (load_from_storage, trimmed, named, loads)
                (load-encoded env now s t b r scheduled bytes x z),
          )
      where
        named : (s.id =? "") ≡ false
        named = subst (λ i. (i =? "") ≡ false) trimmed r.named
