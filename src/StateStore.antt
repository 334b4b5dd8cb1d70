-- ===== src/StateStore.antt =====
-- src/state_store.rs: the reader of the state directory and the transaction that may write to it.
-- A transaction holds a lock, so what stands between `begin` and the next network request is one
-- step for every other process.
pub mod Laws
pub mod Archive
use host_monitoring_client.Common.{
  ◌≡◌, Bool, true, false, ◌||◌, Option, none, some, List, [], ◌∷◌, leb, ltb, if◌then◌else◌,
}
use host_monitoring_client.Common.Text.{Text, byte_len, trim, text_eq}
use host_monitoring_client.Error.{
  Error, IoKind, io_error, not_found, already_exists, invalid_input, invalid_data,
}
use host_monitoring_client.StateFiles.{StateFile, Disk, content, put, max_bytes}
use host_monitoring_client.Exec.{Exec, Result, ok, err, pure, throw, io, ◌>>=◌, ◌>>◌, try_else}

-- `StateTransaction::begin`: creates the directory and takes the lock in it.
pub begin : Exec Unit
begin = io (λ d. ok (tt, record d { present = true }))

-- `StateReader::open`: creates nothing.
unfoldable pub open_reader : Exec Unit
open_reader = io (λ d. if d.present then ok (tt, d) else err (io_error not_found))

abbrev read_content : StateFile → Option Text → Disk → Result (Text × Disk)
read_content file none d = err (io_error not_found)
read_content file (some t) d =
    if leb (byte_len t) (max_bytes file) then ok (t, d) else err (io_error invalid_data)

-- `StateReader::read`: bounded by the file's budget.
pub read : StateFile → Exec Text
read file = io (λ d. read_content file (content file d) d)

abbrev pub is_empty : Text → Bool
is_empty [] = true
is_empty (c ∷ t) = false

abbrev pub over_budget : StateFile → Text → Bool
over_budget file bytes = is_empty bytes || ltb (max_bytes file) (byte_len bytes)

-- `StateTransaction::write`: an atomic replacement.
pub write : StateFile → Text → Exec Unit
write file value =
    let bytes = trim value in
    if over_budget file bytes
    then throw (io_error invalid_input)
    else io (λ d. ok (tt, put file (some bytes) d))

-- The pattern `Ok(bytes) => …, Err(NotFound) => None, Err(error) => return Err(error)`.
abbrev or_none : {A : Type 0} → Error → Exec (Option A)
or_none (io_error not_found) = pure none
or_none e = throw e

pub found : {A : Type 0} → Exec A → Exec (Option A)
found m = try_else m (λ a. pure (some a)) or_none

abbrev holds_name : Text → List (Text × Text) → Bool
holds_name n [] = false
holds_name n ((m, t) ∷ r) = text_eq n m || holds_name n r

-- `AtomicFile::create` under the archive's name.
create_archive : Text → Text → Exec Unit
create_archive archive_name bytes = io (λ d.
    if holds_name archive_name d.archives
    then err (io_error already_exists)
    else ok (tt, record d { archives = (archive_name, bytes) ∷ d.archives }))

remove_file : StateFile → Exec Unit
remove_file file = io (λ d. ok (tt, put file none d))

-- The last part of an archive; `is_entry_name` is the test of xcsc's `EntryName::new`.
archive_found : (Text → Bool) → StateFile → Text → Option Text → Exec (Option Text)
unfolding create_archive remove_file
archive_found is_entry_name file archive_name none = pure none
archive_found is_entry_name file archive_name (some bytes) =
    if is_entry_name archive_name
    then (do create_archive archive_name bytes; remove_file file; pure (some archive_name))
    else throw (io_error invalid_data)

-- `StateTransaction::archive`: the copy is durable before the active name is removed.
pub archive : (Text → Bool) → StateFile → Text → Exec (Option Text)
unfolding archive_found found read
archive is_entry_name file archive_name = do
  bytes ← found (read file)
  archive_found is_entry_name file archive_name bytes
