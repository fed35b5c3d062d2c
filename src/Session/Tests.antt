-- ===== src/Session/Tests.antt =====
-- Concrete runs of the package session.
use Prim.Native.String.{◌++◌ as ◌^◌}
use text.Mathlib.TextLemmas.{append_cancel_left}
use Prim.Native.Char.{code}
use xgc_agent.Prelude.{
  ◌==◌, zero, suc, ◌&&◌, if◌then◌else◌, ◌=?◌, List, ℕ, ◌≡◌, ◌≢◌, refl, Bool, true, false, Option,
  none, some, [], ◌∷◌, ◌++◌, inl, inr, ◌⊎◌, String, string_eq, string_iff, beq_refl, arith,
}
use xgc_agent.Prelude.Int.{pos, to_ℕ}
use xgc_agent.Prelude.Maps.{Map, lookup, insert, lookup-insert}
use xgc_agent.Prelude.Paths.{join_path}
use xgc_agent.Session.Files.{Disk, ReadError, not_there, file_save, file_load, file_store}
use xgc_agent.Session.Files.Kept.{IsDisk, file_load-file_save, session_kept_in_files}
use xgc_agent.Prelude.Text.{is_space, trim_space, trim_left, trim_right}
use xgc_agent.Message.{Message, message_user, message_assistant}
use xgc_agent.Session.Buffer.{
  Buffer, fields_from, byte_length, default_tokenizer, append_message, trim, token_count,
}
use xgc_agent.Session.Buffer.Window.{IsLongest, append_message_lem}
use xgc_agent.Session.State.{
  history_messages, buffer_size, restore_failed, Bytes, Session, SessionState, Platform,
}
use xgc_agent.Session.State.Persist.{state_of, load, save, load_from_storage, snapshot_scheduler}
use xgc_agent.Session.State.RoundTrip.{IsReady, IsEncoded, IsRestored, IsLoaded, load_error_keeps}

default_tokenizer-words : default_tokenizer " two  words" ≡ 4
unfolding default_tokenizer fields_from is_space byte_length
default_tokenizer-words = refl

abbrev question : Message ℕ
question = message_user "how are you"

abbrev answer : Message ℕ
answer = message_assistant "fine"

abbrev talk : Buffer ℕ
talk = record {
  messages = question ∷ answer ∷ [];
  max_tokens = pos 9;
  tokenizer = default_tokenizer;
}

append_message-talk : (append_message question talk).messages ≡ answer ∷ question ∷ []
unfolding append_message trim token_count default_tokenizer fields_from is_space byte_length
append_message-talk = refl

append_message_lem_example :
    IsLongest talk.max_tokens talk.tokenizer
      (talk.messages ++ question ∷ [])
      (append_message question talk).messages
    × ((append_message question talk).max_tokens ≡ talk.max_tokens)
    × ((append_message question talk).tokenizer ≡ talk.tokenizer)
append_message_lem_example = append_message_lem question talk

abbrev held : Session ℕ ℕ ℕ
held = record {
  id = "sess_u_1";
  user_id = "u";
  scheduler = some 3;
  history = some talk;
  tools = some 0;
  metadata = ("lang", 1) ∷ [];
  created_at = 5;
  updated_at = 8;
}

abbrev other : Session ℕ ℕ ℕ
other = record held { id = "x"; history = none; scheduler = none; created_at = 0 }

abbrev encode : Option ℕ → Bytes
encode none = 0 ∷ []
encode (some n) = n ∷ 0 ∷ []

abbrev decode : Bytes → Option (SessionState ℕ ℕ)
decode [] = none
decode (n ∷ []) = some (state_of held none)
decode (n ∷ m ∷ rest) = some (state_of held (some n))

abbrev platform : Platform ℕ ℕ ℕ ℕ
platform = record {
  new_scheduler = 0;
  new_registry = 0;
  snapshot = λ n. some n;
  restore = λ n _. some n;
  marshal = λ state. some (encode state.scheduler);
  unmarshal = decode;
}

load_error_keeps_example :
    ((load platform 9 (7 ∷ []) other).0 ≡ none)
    ⊎ ((load platform 9 (7 ∷ []) other).1 ≡ other)
    ⊎ ((load platform 9 (7 ∷ []) other).0 ≡ some restore_failed)
load_error_keeps_example = load_error_keeps platform 9 (7 ∷ []) other

-- Files as a map from paths to their bytes, in which every call goes well.
abbrev found : Option Bytes → ReadError ⊎ Bytes
found none = inl not_there
found (some bytes) = inr bytes

abbrev map_disk : Disk (Map String Bytes)
map_disk = record {
  make_all = λ _ files. (true, files);
  write_file = λ path bytes files. (true, insert path bytes files);
  read_file = λ path files. found (lookup path files);
}

map_disk-IsDisk : IsDisk map_disk
map_disk-IsDisk = record {
  read-write = λ path bytes files h. rw (lookup-insert path path bytes files, beq_refl path) refl;
  read-write_other = λ folder name other_name bytes kept files p q r t ne h.
      let apart : folder ^ name ≢ folder ^ other_name =
        λ e. ne (append_cancel_left folder name other_name e) in
      ground (
        arith,
        lookup-insert (folder ^ name) (folder ^ other_name) bytes files,
        string_iff (folder ^ name) (folder ^ other_name),
        apart,
      );
  read-make_all = λ dir path kept files h. h;
}

two_files : Map String Bytes
two_files = ("sessions/a.json", 1 ∷ []) ∷ ("sessions/b.json", 2 ∷ []) ∷ []

a_is_not_b : ◌≢◌ {A = String} "a" "b"
a_is_not_b e = let same : ◌≡◌ {A = Bool} false true = (string_iff "a" "b").1 e in cc

file_load-file_save_example :
    (file_load map_disk false "sessions" "a"
        (file_save map_disk false "sessions" "a" (7 ∷ []) two_files).1
      ≡ inr (7 ∷ []))
    × (file_load map_disk false "sessions" "b"
          (file_save map_disk false "sessions" "a" (7 ∷ []) two_files).1
        ≡ inr (2 ∷ []))
unfolding two_files file_load file_save join_path lookup
file_load-file_save_example =
    file_load-file_save map_disk map_disk-IsDisk "sessions" "a" "b" (7 ∷ []) (2 ∷ []) two_files refl
      refl a_is_not_b refl refl

-- An id with slashes can name another session's file.
climbing_id :
    file_load map_disk false "sessions" "b"
      (file_save map_disk false "sessions" "../sessions/b" (7 ∷ []) two_files).1
    ≡ inr (7 ∷ [])
unfolding two_files file_load file_save join_path lookup insert
climbing_id = refl

-- An encoding of the sessions without messages and metadata whose names are words of "u" and "_": a
-- text is its letters, with 0 behind them. Other sessions are refused, as JSON refuses some values.
abbrev letter : ℕ → String
letter n = if n == 117 then "u" else "_"

abbrev encode_text : String → Bytes → Bytes
encode_text String.[] rest = 0 ∷ rest
encode_text (String.◌∷◌ c s) rest = code c ∷ encode_text s rest

abbrev decode_text : Bytes → String × Bytes
decode_text [] = ("", [])
decode_text (zero ∷ bytes) = ("", bytes)
decode_text (suc n ∷ bytes) = let rest = decode_text bytes in (letter (suc n) ^ rest.0, rest.1)

abbrev new_state : String → String → ℕ → ℕ → ℕ → Option ℕ → SessionState ℕ ℕ
new_state id user_id size created updated scheduler = record {
  id = id;
  user_id = user_id;
  metadata = [];
  history = [];
  buffer_size = pos size;
  scheduler = scheduler;
  created_at = created;
  updated_at = updated;
}

abbrev decode_numbers : String → String → Bytes → Option (SessionState ℕ ℕ)
decode_numbers id user_id (size ∷ created ∷ updated ∷ []) =
    some (new_state id user_id size created updated none)
decode_numbers id user_id (size ∷ created ∷ updated ∷ scheduler ∷ []) =
    some (new_state id user_id size created updated (some scheduler))
decode_numbers id user_id _ = none

abbrev decode_state : Bytes → Option (SessionState ℕ ℕ)
decode_state bytes =
    let id = decode_text bytes in
    let user_id = decode_text id.1 in decode_numbers id.0 user_id.0 user_id.1

abbrev scheduler_bytes : Option ℕ → Bytes
scheduler_bytes none = []
scheduler_bytes (some n) = n ∷ []

abbrev is_word : String → Bool
is_word s = (decode_text (encode_text s [])).0 =? s

abbrev is_empty {ℓ} : {A : Type ℓ} → List A → Bool
is_empty [] = true
is_empty (x ∷ xs) = false

abbrev encode_state : SessionState ℕ ℕ → Option Bytes
encode_state state =
    if is_word state.id
      && is_word state.user_id
      && is_empty state.history
      && is_empty state.metadata
    then some (
        encode_text state.id (
          encode_text state.user_id (
            to_ℕ state.buffer_size
            ∷ state.created_at
            ∷ state.updated_at
            ∷ scheduler_bytes state.scheduler)))
    else none

abbrev words : Platform ℕ ℕ ℕ ℕ
words = record platform { marshal = encode_state; unmarshal = decode_state }

abbrev quiet : Buffer ℕ
quiet = record { messages = []; max_tokens = pos 9; tokenizer = default_tokenizer }

abbrev short_one : Session ℕ ℕ ℕ
short_one = record held { id = "u_u"; history = some quiet; metadata = [] }

abbrev short_bytes : Bytes
short_bytes = 117 ∷ 95 ∷ 117 ∷ 0 ∷ 117 ∷ 0 ∷ 9 ∷ 5 ∷ 8 ∷ 3 ∷ []

short_one-IsReady : IsReady short_one quiet
unfolding trim_space trim_right trim_left is_space token_count
short_one-IsReady = record {
  named = refl;
  owned = refl;
  buffered = refl;
  bounded = refl;
  counted = refl;
  window = inl refl;
  created = refl;
  updated = refl;
}

short_one-IsEncoded : IsEncoded words short_one (some 3) short_bytes
unfolding state_of snapshot_scheduler history_messages buffer_size
short_one-IsEncoded = record { snapshots = refl; encodes = refl; decodes = refl; not_empty = refl }

other-IsRestored : IsRestored words (some 3) other
other-IsRestored = (3, refl)

session_kept_in_files_example :
    ((save (file_store map_disk "sessions") words short_one []).0 ≡ none)
    × IsLoaded short_one (
        load_from_storage
          (file_store map_disk "sessions")
          words
          9
          short_one.id
          (save (file_store map_disk "sessions") words short_one []).1
          other)
unfolding trim_space trim_right trim_left is_space file_save
session_kept_in_files_example =
    session_kept_in_files map_disk map_disk-IsDisk words 9 "sessions" short_one other quiet (some 3)
      short_bytes [] short_one-IsReady short_one-IsEncoded other-IsRestored refl refl
