-- ===== src/Session/State.antt =====
-- `Session` of session/session.go. A pointer is an option, a time is a number and its zero value is
-- 0. What the code calls outside its own sources is a parameter: JSON, and the scheduler's
-- `Snapshot` and `Restore`, which the package schedule does not declare. A method returns its error
-- and the session that it leaves.
pub mod Persist
pub mod RoundTrip
use xgc_agent.Prelude.{
  ℕ, ◌==◌, String, Bool, true, false, Option, none, some, List, [], ◌∷◌, if◌then◌else◌, length,
  ◌=?◌, string_eq, ◌⊎◌, inl, inr,
}
use xgc_agent.Prelude.Int.{ℤ, pos, is_nonpos}
use Prim.Native.String.{◌++◌}
use xgc_agent.Prelude.Text.{trim_space, decimal}
use xgc_agent.Message.{Message}
use xgc_agent.Session.Buffer.{Buffer, new_buffer, append_message, append_all, clear}

abbrev pub Bytes : Type 0
Bytes = List ℕ

pub data Error : Type 0 where
  data_empty load_failed id_required user_id_required restore_failed : Error
  snapshot_failed dump_failed session_id_required save_failed not_loaded : Error

unfoldable pub default_buffer_tokens : ℤ
default_buffer_tokens = pos 4096

pub record SessionState (Any Scheduled : Type 0) : Type 0 where
  pub id : String
  pub user_id : String
  pub metadata : List (String × Any)
  pub history : List (Message Any)
  pub buffer_size : ℤ
  pub scheduler : Option Scheduled
  pub created_at : ℕ
  pub updated_at : ℕ

pub record Session (Any Scheduler Registry : Type 0) : Type 0 where
  pub id : String
  pub user_id : String
  pub scheduler : Option Scheduler
  pub history : Option (Buffer Any)
  pub tools : Option Registry
  pub metadata : List (String × Any)
  pub created_at : ℕ
  pub updated_at : ℕ

pub record SessionSnapshot (Any : Type 0) : Type 0 where
  pub id : String
  pub user_id : String
  pub metadata : List (String × Any)
  pub history : List (Message Any)
  pub created_at : ℕ
  pub updated_at : ℕ

-- What the methods call.
pub record Platform (Any Scheduler Scheduled Registry : Type 0) : Type 0 where
  pub new_scheduler : Scheduler
  pub new_registry : Registry
  pub snapshot : Scheduler → Option Scheduled
  pub restore : Scheduled → Scheduler → Option Scheduler
  pub marshal : SessionState Any Scheduled → Option Bytes
  pub unmarshal : Bytes → Option (SessionState Any Scheduled)

-- A `SessionStore`; a failed call gives none.
pub record SessionStore (Store : Type 0) : Type 0 where
  pub save : String → Bytes → Store → Option Store
  pub load : String → Store → Option Bytes

module _ {Any : Type 0} where
  unfoldable pub history_messages : Option (Buffer Any) → List (Message Any)
  history_messages none = []
  history_messages (some b) = b.messages

  unfoldable pub buffer_size : Option (Buffer Any) → ℤ
  buffer_size none = default_buffer_tokens
  buffer_size (some b) = if is_nonpos b.max_tokens then default_buffer_tokens else b.max_tokens

module _ {Any Scheduler Registry : Type 0} where
  unfoldable pub new_conversation :
      ℕ → Session Any Scheduler Registry → Session Any Scheduler Registry
  new_conversation now s = record s {
    history = elim s.history [
      | none ↦ some (new_buffer default_buffer_tokens none)
      | some b ↦ some (clear b)
    ];
    updated_at = now;
  }

  unfoldable pub add_message :
      ℕ → Option (Message Any) → Session Any Scheduler Registry → Session Any Scheduler Registry
  add_message now none s = s
  add_message now (some msg) s = record s {
    history = elim s.history [
      | none ↦ some (append_message msg (new_buffer default_buffer_tokens none))
      | some b ↦ some (append_message msg b)
    ];
    updated_at = now;
  }

  unfoldable pub snapshot : Session Any Scheduler Registry → SessionSnapshot Any
  snapshot s = record {
    id = s.id;
    user_id = s.user_id;
    metadata = s.metadata;
    history = history_messages s.history;
    created_at = s.created_at;
    updated_at = s.updated_at;
  }

pub record SessionKey : Type 0 where
  pub id : String
  pub session_id : String

-- `SessionKey.Validate`
unfoldable pub validate_session_key : SessionKey → Option Error
validate_session_key k =
    if k.id =? ""
    then some id_required
    else if k.session_id =? ""
    then some session_id_required
    else none

-- `generateSessionKey`: the time in nanoseconds, and the random part as hexadecimal text or, where
-- there is none, the counter.
unfoldable pub generate_session_key : String → ℕ → ℕ → Option String → String
generate_session_key user_id now counter random =
    let trimmed = trim_space user_id in
    let normalized = if trimmed =? "" then "anonymous" else trimmed in
    let last_part : String = elim random [ none ↦ decimal counter | some hex ↦ hex ] in
    "sess_" ++ normalized ++ "_" ++ decimal now ++ "_" ++ last_part
