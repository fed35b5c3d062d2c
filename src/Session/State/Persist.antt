-- ===== src/Session/State/Persist.antt =====
-- `Dump`, `Load`, `Save` and `LoadFromStorage` of session/session.go.
use xgc_agent.Prelude.{
  ℕ, ◌==◌, String, Option, none, some, [], if◌then◌else◌, length, ◌=?◌, string_eq, ◌⊎◌, inl, inr,
}
use xgc_agent.Prelude.Int.{ℤ, is_nonpos}
use xgc_agent.Prelude.Text.{trim_space}
use xgc_agent.Session.Buffer.{new_buffer, append_all}
use xgc_agent.Session.State.{
  Bytes, Error, data_empty, load_failed, id_required, user_id_required, restore_failed,
  snapshot_failed, dump_failed, session_id_required, save_failed, not_loaded, SessionState, Session,
  Platform, SessionStore, default_buffer_tokens, history_messages, buffer_size,
}

module _ {Any Scheduler Scheduled Registry : Type 0} where
  unfoldable pub new_session :
      Platform Any Scheduler Scheduled Registry
      → ℕ
      → String
      → String
      → ℤ
      → Option Scheduler
      → Option Registry
      → Session Any Scheduler Registry
  unfolding default_buffer_tokens
  new_session env now key user_id buffer_size scheduler registry = record {
    id = key;
    user_id = user_id;
    scheduler = elim scheduler [ none ↦ some env.new_scheduler | some s ↦ some s ];
    history =
        some
          (new_buffer (if is_nonpos buffer_size then default_buffer_tokens else buffer_size) none);
    tools = elim registry [ none ↦ some env.new_registry | some r ↦ some r ];
    metadata = [];
    created_at = now;
    updated_at = now;
  }

  -- The state that `Dump` encodes.
  unfoldable pub state_of :
      Session Any Scheduler Registry → Option Scheduled → SessionState Any Scheduled
  state_of s scheduled = record {
    id = s.id;
    user_id = s.user_id;
    metadata = s.metadata;
    history = history_messages s.history;
    buffer_size = buffer_size s.history;
    scheduler = scheduled;
    created_at = s.created_at;
    updated_at = s.updated_at;
  }

  unfoldable pub snapshot_scheduler :
      Platform Any Scheduler Scheduled Registry → Option Scheduler → Option (Option Scheduled)
  snapshot_scheduler env none = some none
  snapshot_scheduler env (some scheduler) = elim (env.snapshot scheduler) [
    | none ↦ none
    | some scheduled ↦ some (some scheduled)
  ]

  unfoldable pub dump :
      Platform Any Scheduler Scheduled Registry → Session Any Scheduler Registry → Error ⊎ Bytes
  dump env s = elim (snapshot_scheduler env s.scheduler) [
    | none ↦ inl snapshot_failed
    | some scheduled ↦ elim (env.marshal (state_of s scheduled)) [
      | none ↦ inl dump_failed
      | some bytes ↦ inr bytes
    ]
  ]

  -- `Load` once the scheduler is restored.
  unfoldable pub finish_load :
      Platform Any Scheduler Scheduled Registry
      → ℕ
      → SessionState Any Scheduled
      → Session Any Scheduler Registry
      → Session Any Scheduler Registry
  finish_load env now state s =
      let created = if state.created_at == 0 then now else state.created_at in
      record s {
        tools = elim s.tools [ none ↦ some env.new_registry | some r ↦ some r ];
        created_at = created;
        updated_at = if state.updated_at == 0 then created else state.updated_at;
      }

  unfoldable pub or_new : Platform Any Scheduler Scheduled Registry → Option Scheduler → Scheduler
  or_new env none = env.new_scheduler
  or_new env (some scheduler) = scheduler

  -- `Load` from the state that is decoded and checked.
  unfoldable pub load_state :
      Platform Any Scheduler Scheduled Registry
      → ℕ
      → SessionState Any Scheduled
      → Session Any Scheduler Registry
      → Option Error × Session Any Scheduler Registry
  load_state env now state s =
      let size = if is_nonpos state.buffer_size then default_buffer_tokens else state.buffer_size in
      let scheduler = or_new env s.scheduler in
      let s' = record s {
        id = state.id;
        user_id = state.user_id;
        metadata = state.metadata;
        history = some (append_all state.history (new_buffer size none));
        scheduler = some scheduler;
      } in
      elim state.scheduler [
        | none ↦ (none, finish_load env now state s')
        | some scheduled ↦ elim (env.restore scheduled scheduler) [
          | none ↦ (some restore_failed, s')
          | some restored ↦
              (none, finish_load env now state (record s' { scheduler = some restored }))
        ]
      ]

  unfoldable pub load :
      Platform Any Scheduler Scheduled Registry
      → ℕ
      → Bytes
      → Session Any Scheduler Registry
      → Option Error × Session Any Scheduler Registry
  load env now bytes s =
      if length bytes == 0 then (some data_empty, s) else elim (env.unmarshal bytes) [
        | none ↦ (some load_failed, s)
        | some state ↦
            if trim_space state.id =? ""
            then (some id_required, s)
            else if trim_space state.user_id =? ""
            then (some user_id_required, s)
            else load_state env now state s
      ]

  module _ {Store : Type 0} (store : SessionStore Store) where
    -- `Save`, with the store that it leaves.
    unfoldable pub save :
        Platform Any Scheduler Scheduled Registry
        → Session Any Scheduler Registry
        → Store
        → Option Error × Store
    save env s kept = elim (dump env s) [
      | inl e ↦ (some e, kept)
      | inr bytes ↦
          if trim_space s.id =? ""
          then (some session_id_required, kept)
          else elim (store.save s.id bytes kept) [
            | none ↦ (some save_failed, kept)
            | some kept' ↦ (none, kept')
          ]
    ]

    unfoldable pub load_from_storage :
        Platform Any Scheduler Scheduled Registry
        → ℕ
        → String
        → Store
        → Session Any Scheduler Registry
        → Option Error × Session Any Scheduler Registry
    load_from_storage env now session_id kept s =
        let given = trim_space session_id in
        let key = if given =? "" then trim_space s.id else given in
        if key =? "" then (some session_id_required, s) else elim (store.load key kept) [
          | none ↦ (some not_loaded, s)
          | some bytes ↦ load env now bytes s
        ]
