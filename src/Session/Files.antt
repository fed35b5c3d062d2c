-- ===== src/Session/Files.antt =====
-- `FileStore` and `SQLiteStore` of session/store.go, over what they call of the file system and of
-- the database. A method takes whether its context is cancelled, first of all.
pub mod Kept
use xgc_agent.Prelude.{
  String, Bool, true, false, Option, none, some, List, [], ◌∷◌, if◌then◌else◌, ◌=?◌, string_eq, ◌⊎◌,
  inl, inr,
}
use Prim.Native.String.{◌++◌}
use xgc_agent.Prelude.Paths.{join_path}
use xgc_agent.Session.State.{Bytes, SessionStore}

pub data StoreError : Type 0 where
  cancelled dir_empty dsn_required id_required create_dir_failed write_failed : StoreError
  session_not_found read_failed open_failed create_table_failed save_failed load_failed : StoreError

-- Why a file or a row is not read: `os.ErrNotExist` or `sql.ErrNoRows`, or something else.
pub data ReadError : Type 0 where
  not_there other_error : ReadError

abbrev or_not_found : StoreError → ReadError → StoreError
or_not_found e not_there = session_not_found
or_not_found e other_error = e

-- `os.MkdirAll`, `os.WriteFile` and `os.ReadFile`. A call that changes the files says whether it went
-- well.
pub record Disk (Files : Type 0) : Type 0 where
  pub make_all : String → Files → Bool × Files
  pub write_file : String → Bytes → Files → Bool × Files
  pub read_file : String → Files → ReadError ⊎ Bytes

unfoldable pub file_path : String → String → String
file_path dir session_id = join_path dir (session_id ++ ".json")

module _ {Files : Type 0} (disk : Disk Files) where
  write : String → Bytes → Bool × Files → Option StoreError × Files
  write path bytes (false, files) = (some create_dir_failed, files)
  write path bytes (true, files) =
      let (done, files') = disk.write_file path bytes files in
      if done then (none, files') else (some write_failed, files')

  unfoldable pub file_save : Bool → String → String → Bytes → Files → Option StoreError × Files
  unfolding write file_path
  file_save cancelled_yet dir session_id bytes files =
      if cancelled_yet
      then (some cancelled, files)
      else if dir =? ""
      then (some dir_empty, files)
      else if session_id =? ""
      then (some id_required, files)
      else write (file_path dir session_id) bytes (disk.make_all dir files)

  unfoldable pub file_load : Bool → String → String → Files → StoreError ⊎ Bytes
  unfolding file_path
  file_load cancelled_yet dir session_id files =
      if cancelled_yet
      then inl cancelled
      else if dir =? ""
      then inl dir_empty
      else if session_id =? ""
      then inl id_required
      else elim (disk.read_file (file_path dir session_id) files) [
        | inl e ↦ inl (or_not_found read_failed e)
        | inr bytes ↦ inr bytes
      ]

-- An argument of a statement.
pub data Argument : Type 0 where
  text : String → Argument
  blob : Bytes → Argument

-- `sql.Open`, `Exec`, `QueryRow` with `Scan`, and `Close`.
pub record Database (Db : Type 0) : Type 0 where
  pub open_db : String → Option Db
  pub exec : String → List Argument → Db → Bool × Db
  pub query_row : String → List Argument → Db → ReadError ⊎ Bytes
  pub close : Db → Db

abbrev pub ddl : String
ddl =
    "\nCREATE TABLE IF NOT EXISTS sessions (\n    id TEXT PRIMARY KEY,\n    data BLOB NOT NULL,\n    updated_at INTEGER NOT NULL\n);"

abbrev pub upsert : String
upsert =
    "\nINSERT INTO sessions(id, data, updated_at)\nVALUES (?, ?, unixepoch())\nON CONFLICT(id) DO UPDATE SET\n    data = excluded.data,\n    updated_at = excluded.updated_at;"

abbrev pub select_data : String
select_data = "SELECT data FROM sessions WHERE id = ? LIMIT 1;"

module _ {Db : Type 0} (database : Database Db) where
  -- The store, or the error with the database that was closed again.
  initialised : Bool × Db → (StoreError × Option Db) ⊎ Db
  initialised (false, db) = inl (create_table_failed, some (database.close db))
  initialised (true, db) = inr db

  unfoldable pub new_sqlite_store : String → (StoreError × Option Db) ⊎ Db
  unfolding initialised
  new_sqlite_store dsn =
      if dsn =? "" then inl (dsn_required, none) else elim (database.open_db dsn) [
        | none ↦ inl (open_failed, none)
        | some db ↦ initialised (database.exec ddl [] db)
      ]

  unfoldable pub sqlite_save : Bool → String → Bytes → Db → Option StoreError × Db
  sqlite_save cancelled_yet session_id bytes db =
      if cancelled_yet
      then (some cancelled, db)
      else if session_id =? ""
      then (some id_required, db)
      else let (done, db') = database.exec upsert (text session_id ∷ blob bytes ∷ []) db in
        if done then (none, db') else (some save_failed, db')

  unfoldable pub sqlite_load : Bool → String → Db → StoreError ⊎ Bytes
  sqlite_load cancelled_yet session_id db =
      if cancelled_yet
      then inl cancelled
      else if session_id =? ""
      then inl id_required
      else elim (database.query_row select_data (text session_id ∷ []) db) [
        | inl e ↦ inl (or_not_found load_failed e)
        | inr bytes ↦ inr bytes
      ]

-- The file store as the interface that a session calls, where no context is cancelled.
abbrev pub saved : {Files : Type 0} → Option StoreError × Files → Option Files
saved (none, files) = some files
saved (some e, files) = none

abbrev pub loaded : StoreError ⊎ Bytes → Option Bytes
loaded (inl e) = none
loaded (inr bytes) = some bytes

abbrev pub file_store : {Files : Type 0} → Disk Files → String → SessionStore Files
file_store disk dir = record {
  save = λ id bytes files. saved (file_save disk false dir id bytes files);
  load = λ id files. loaded (file_load disk false dir id files);
}
