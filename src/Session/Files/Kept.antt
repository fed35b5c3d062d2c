-- ===== src/Session/Files/Kept.antt =====
-- What the files of a folder keep of the sessions that are saved in it.
use Prim.Native.String.{count, ◌++◌}
use text.Mathlib.TextLemmas.{length-append, append_cancel_right, nil-append, cons-append}
use xgc_agent.Prelude.{
  ℕ, ◌<◌, ◌≡◌, ◌≢◌, refl, ap, String, true, false, none, arith, ◌=?◌, string_eq, string_iff, inl,
  inr, Option, some, Bool-cases,
}
use xgc_agent.Prelude.Text.{trim_space}
use xgc_agent.Prelude.Paths.{has_slash, IsPlain, join_path_lem, path_before}
use xgc_agent.Session.Buffer.{Buffer}
use xgc_agent.Session.State.{Bytes, Session, Platform}
use xgc_agent.Session.State.Persist.{save, load_from_storage}
use xgc_agent.Session.State.RoundTrip.{
  IsReady, IsEncoded, IsRestored, IsLoaded, load_from_storage-save,
}
use xgc_agent.Session.Files.{
  saved, loaded, file_store, StoreError, Disk, file_path, file_save, file_load, write,
}

has_slash-append :
    (s t : String) → has_slash s ≡ false → has_slash t ≡ false → has_slash (s ++ t) ≡ false
has_slash-append String.[] t h k = rw (nil-append t) k
has_slash-append (String.◌∷◌ c s) t h k =
    rw (cons-append c s t) (ground (arith, has_slash-append s t))

-- A text that is longer is another one.
longer : (s t : String) → count t < count s → (s =? t) ≡ false
longer s t h = elim (Bool-cases (s =? t)) [
  | inl e ↦ absurd (omega (arith, ap count ((string_iff s t).0 e)))
  | inr e ↦ e
]

-- The name of a session's file is a name of its own, and no way up or to the folder itself.
file_name-IsPlain : (id : String) → IsPlain (id ++ ".json")
file_name-IsPlain id = (
  longer _ "" (omega (arith, length-append id ".json")),
  longer _ "." (omega (arith, length-append id ".json")),
  longer _ ".." (omega (arith, length-append id ".json")),
)

-- The file of a session whose id has no slash is in the folder, under the session's name.
file_path_lem :
    (dir id : String)
    → (dir =? "") ≡ false
    → has_slash id ≡ false
    → file_path dir id ≡ path_before dir ++ (id ++ ".json")
unfolding file_path
file_path_lem dir id d h =
    join_path_lem dir (id ++ ".json") d (has_slash-append id ".json" h refl) (file_name-IsPlain id)

-- What is relied on of the file system: a file that was written without error is read as written; a
-- write leaves each file of the same folder that has another name, where the two names have no
-- slash and are no way up or to the folder itself; and making a folder leaves the files that can be
-- read. So names are compared as they are written, and the names of a folder are no links to one
-- file. Nothing is said of two paths that differ in anything but their last name.
pub record IsDisk {Files : Type 0} (disk : Disk Files) : Type 0 where
  pub read-write :
      (path : String) (bytes : Bytes) (files : Files)
      → (disk.write_file path bytes files).0 ≡ true
      → disk.read_file path (disk.write_file path bytes files).1 ≡ inr bytes
  pub read-write_other :
      (folder name other : String) (bytes kept : Bytes) (files : Files)
      → has_slash name ≡ false
      → has_slash other ≡ false
      → IsPlain name
      → IsPlain other
      → name ≢ other
      → disk.read_file (folder ++ other) files ≡ inr kept
      → disk.read_file (folder ++ other) (disk.write_file (folder ++ name) bytes files).1 ≡ inr kept
  pub read-make_all :
      (dir other : String) (kept : Bytes) (files : Files)
      → disk.read_file other files ≡ inr kept
      → disk.read_file other (disk.make_all dir files).1 ≡ inr kept

module _ {Files : Type 0} (disk : Disk Files) where
  -- The files after a save that found nothing to object to.
  abbrev written : String → String → Bytes → Files → Files
  written dir id bytes files =
      (disk.write_file (file_path dir id) bytes (disk.make_all dir files).1).1

  record IsSaved (dir id : String) (bytes : Bytes) (files after : Files) : Type 0 where
    dir_given : (dir =? "") ≡ false
    id_given : (id =? "") ≡ false
    done : (disk.write_file (file_path dir id) bytes (disk.make_all dir files).1).0 ≡ true
    after_it : after ≡ written dir id bytes files

  file_save-IsSaved :
      (dir id : String) (bytes : Bytes) (files : Files)
      → (file_save disk false dir id bytes files).0 ≡ none
      → IsSaved dir id bytes files (file_save disk false dir id bytes files).1
  unfolding file_save write
  file_save-IsSaved dir id bytes files h = ground (arith, Bool-cases (disk.make_all dir files).0)

  -- A load by the same folder and id reads the file.
  file_load-read :
      (dir id : String) (files : Files)
      → (dir =? "") ≡ false
      → (id =? "") ≡ false
      → (bytes : Bytes) → disk.read_file (file_path dir id) files ≡ inr bytes
      → file_load disk false dir id files ≡ inr bytes
  unfolding file_load
  file_load-read dir id files d i bytes h = ground (arith, d, i, h)

  read-file_load :
      (dir id : String) (files : Files) (bytes : Bytes)
      → file_load disk false dir id files ≡ inr bytes
      → ((id =? "") ≡ false) × (disk.read_file (file_path dir id) files ≡ inr bytes)
  unfolding file_load
  read-file_load dir id files bytes h = ground arith

  own_load :
      (laws : IsDisk disk) (dir id : String) (bytes : Bytes) (files : Files)
      → (file_save disk false dir id bytes files).0 ≡ none
      → file_load disk false dir id (file_save disk false dir id bytes files).1 ≡ inr bytes
  own_load laws dir id bytes files saved =
      let s : IsSaved dir id bytes files (file_save disk false dir id bytes files).1 =
        file_save-IsSaved dir id bytes files saved in
      rw s.after_it (
        file_load-read dir id _ s.dir_given s.id_given bytes
          (laws.read-write (file_path dir id) bytes _ s.done))

  kept_beside :
      (laws : IsDisk disk) (dir id other : String) (bytes kept : Bytes) (files : Files)
      → (dir =? "") ≡ false
      → has_slash id ≡ false
      → has_slash other ≡ false
      → id ≢ other
      → disk.read_file (file_path dir other) files ≡ inr kept
      → disk.read_file (file_path dir other) (disk.write_file (file_path dir id) bytes files).1
        ≡ inr kept
  kept_beside laws dir id other bytes kept files d h k ne =
      rw (file_path_lem dir id d h, file_path_lem dir other d k)
        (laws.read-write_other (path_before dir) (id ++ ".json") (other ++ ".json") bytes kept files
          (has_slash-append id ".json" h refl) (has_slash-append other ".json" k refl)
          (file_name-IsPlain id) (file_name-IsPlain other)
          (λ e. ne (append_cancel_right id other ".json" e)))

  -- A session that is saved in a folder without error is loaded as it was saved, and each other
  -- session of the folder that could be loaded before is loaded as before. The ids have no slash,
  -- and the file system reads what was written, and keeps apart the files of a folder whose names
  -- differ.
  pub file_load-file_save :
      (laws : IsDisk disk) (dir id other : String) (bytes kept : Bytes) (files : Files)
      → has_slash id ≡ false
      → has_slash other ≡ false
      → id ≢ other
      → file_load disk false dir other files ≡ inr kept
      → (file_save disk false dir id bytes files).0 ≡ none
      → (file_load disk false dir id (file_save disk false dir id bytes files).1 ≡ inr bytes)
        × (file_load disk false dir other (file_save disk false dir id bytes files).1 ≡ inr kept)
  file_load-file_save laws dir id other bytes kept files h k ne before saved =
      let s : IsSaved dir id bytes files (file_save disk false dir id bytes files).1 =
        file_save-IsSaved dir id bytes files saved in
      let old = read-file_load dir other files kept before in
      (
        own_load laws dir id bytes files saved,
        rw s.after_it (
            file_load-read dir other _ s.dir_given old.0 kept (
              kept_beside laws dir id other bytes kept _ s.dir_given h k ne
                (laws.read-make_all dir (file_path dir other) kept files old.1))),
      )

saved_lem : {Files : Type 0} (r : Option StoreError × Files) → r.0 ≡ none → saved r ≡ some r.1
saved_lem (none, files) h = refl
saved_lem (some e, files) h = cc

module _ {Any Scheduler Scheduled Registry Files : Type 0} (disk : Disk Files)
    (laws : IsDisk disk) where
  -- A session with a user and an id that are not blank, a creation and an update time, and a
  -- history that counts tokens in the default way and is within its positive limit or has one
  -- message at most, and whose id has no space at its ends, is saved in a folder and then loaded
  -- from it into any session, without error, and shows the same ids, metadata, history and times.
  -- It is taken that the session's scheduler can be saved, and restored into that of the other
  -- session, that JSON decodes the bytes of this session's state as it was, that the file is
  -- written without error, and that the file system reads what was written.
  pub session_kept_in_files :
      (env : Platform Any Scheduler Scheduled Registry) (now : ℕ) (dir : String)
      (s t : Session Any Scheduler Registry) (b : Buffer Any) (scheduled : Option Scheduled)
      (bytes : Bytes) (files : Files)
      → IsReady s b
      → IsEncoded env s scheduled bytes
      → IsRestored env scheduled t
      → trim_space s.id ≡ s.id
      → (file_save disk false dir s.id bytes files).0 ≡ none
      → ((save (file_store disk dir) env s files).0 ≡ none)
        × IsLoaded s (
            load_from_storage
              (file_store disk dir)
              env
              now
              s.id
              (save (file_store disk dir) env s files).1
              t)
  session_kept_in_files env now dir s t b scheduled bytes files r x z trimmed saves =
      load_from_storage-save (file_store disk dir) env now s t b scheduled bytes files
        (file_save disk false dir s.id bytes files).1 r x z trimmed
        (saved_lem (file_save disk false dir s.id bytes files) saves)
        (ap loaded (own_load disk laws dir s.id bytes files saves))
