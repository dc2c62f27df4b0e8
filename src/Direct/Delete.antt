-- ===== src/Direct/Delete.antt =====
-- `l_fs_delete_direct_verified` and `posix_delete_recovery_name`.
pub mod Proof
pub mod Evidence
use yaca.Base.{
  ℕ, ◌-◌, Bool, true, false, ◌&&◌, not, Option, none, some, List, [], ◌∷◌, ◌++◌, ◌==◌, ltb, Bytes,
  length, codes, if◌then◌else◌,
}
use yaca.Base.Result.{Result, ok, err}
use yaca.Process.State.{errno_code}
use yaca.Paths.{posix_parent_and_name, size_max}
use yaca.Direct.Facts.{
  Stat, is_regular, is_directory, same_posix_object, same_posix_published_facts,
  same_stat_observation,
}
use yaca.Direct.System.{
  directory_of, entry_at, entry_of, handle_at, System, State, no_slots, Failure, target_changed,
  invalid_target_type, temporary_conflict, unknown, system, renamed, unlinked, Action, pure, fail,
  ◌>>=◌, ◌>>◌, observe, require, or_fail, open_first, open_second, change, change_nothing, parts,
  rename_failure, enoent, is_absent, is_none, Expected, verify, restore, close_slots,
}

abbrev pub suffix : Bytes
suffix = codes ".yaca-delete"

abbrev enametoolong : ℕ
enametoolong = 36

abbrev enomem : ℕ
enomem = 12

unfoldable pub posix_delete_recovery_name : Bool → Bytes → Result ℕ Bytes
posix_delete_recovery_name allocated name =
    if ltb (size_max - length suffix - 1) (length name)
    then err enametoolong
    else if allocated
    then ok (name ++ suffix)
    else err enomem

pub record DeleteRequest : Type 0 where
  pub path : Bytes
  pub target : Expected
  pub parent : Expected
  pub path_memory : Bool
  pub name_memory : Bool

-- An `errno` as it stands.
unfoldable pub or_system : {W A : Type 0} → Result ℕ A → Action W A
unfolding errno_code pure fail
or_system (ok a) = pure a
or_system (err error) = fail (system (errno_code error))

-- AT_REMOVEDIR for a directory; a file must have one name.
unfoldable pub removal_flag : {W : Type 0} → Stat → Action W Bool
unfolding pure fail
removal_flag seen =
    if is_regular seen
    then (if seen.links == 1 then pure false else fail target_changed)
    else if is_directory seen
    then pure true
    else fail invalid_target_type

-- The recovery name must be free.
unfoldable pub free_name : {W : Type 0} → Result ℕ Stat → Action W Bool
unfolding errno_code fail require
free_name (ok s) = fail temporary_conflict
free_name (err error) = require (error == enoent) (system (errno_code error))

unfoldable pub isolated : {W : Type 0} → Option ℕ → Action W Bool
unfolding pure fail errno_code
isolated none = pure true
isolated (some error) = fail (rename_failure error)

-- What the handle tells agrees with what was moved.
abbrev pub agrees : Stat → Stat → Result ℕ Stat → Bool
unfolding same_posix_published_facts
agrees seen moved (err error) = false
agrees seen moved (ok handle) =
    same_posix_published_facts seen moved && same_posix_published_facts moved handle

abbrev pub is_nameless : Stat → Result ℕ Stat → Bool
unfolding same_posix_object
is_nameless seen (err error) = false
is_nameless seen (ok handle) = same_posix_object seen handle && (handle.links == 0)

module _ {W : Type 0} (sys : System W) where
  -- The entry is put back under its name, and the directory is flushed.
  unfoldable pub undo_isolation : ℕ → Bytes → Bytes → (Stat → Bool) → Failure → Action W Bool
  unfolding restore ◌>>=◌ ◌>>◌ pure fail observe require or_fail open_first open_second change
      change_nothing parts
  undo_isolation parent name recovery_name same failure = do
    restore sys parent name parent recovery_name same
    flushed ← change_nothing (sys.fsync parent)
    require (is_none flushed) unknown
    fail failure

  unfoldable pub confirm_removal : ℕ → Bytes → Bytes → ℕ → Stat → Action W Bool
  unfolding ◌>>=◌ ◌>>◌ observe require
  confirm_removal parent name recovery_name target seen = do
    at_name ← observe sys (entry_at parent name)
    require (is_absent at_name) unknown
    at_recovery ← observe sys (entry_at parent recovery_name)
    require (is_absent at_recovery) unknown
    handle ← observe sys (handle_at target)
    require (is_nameless seen handle) unknown

  unfoldable pub removed_or : ℕ → Bytes → Bytes → ℕ → Stat → Stat → Option ℕ → Action W Bool
  unfolding undo_isolation confirm_removal same_posix_published_facts errno_code ◌>>=◌ ◌>>◌ pure
      fail observe require or_fail open_first open_second change change_nothing parts
  removed_or parent name recovery_name target seen moved none =
      confirm_removal parent name recovery_name target seen
  removed_or parent name recovery_name target seen moved (some error) =
      undo_isolation parent name recovery_name (same_posix_published_facts moved)
        (system (errno_code error))

  unfoldable pub remove : ℕ → Bytes → Bytes → ℕ → Bool → Stat → Stat → Action W Bool
  unfolding removed_or ◌>>=◌ ◌>>◌ pure fail observe require or_fail open_first open_second change
      change_nothing parts
  remove parent name recovery_name target directory seen moved = do
    refused ← change (sys.unlink parent recovery_name directory) (unlinked parent recovery_name)
    removed_or parent name recovery_name target seen moved refused

  -- Behind the isolation: what was moved is removed, or put back.
  unfoldable pub confirm_isolation : ℕ → Bytes → Bytes → ℕ → Bool → Stat → Action W Bool
  unfolding undo_isolation remove agrees same_posix_object ◌>>=◌ ◌>>◌ pure fail observe require
      or_fail open_first open_second change change_nothing parts
  confirm_isolation parent name recovery_name target directory seen = do
    at_recovery ← observe sys (entry_at parent recovery_name)
    at_name ← observe sys (entry_at parent name)
    moved ← or_fail unknown at_recovery
    require (is_absent at_name) unknown
    handle ← observe sys (handle_at target)
    if agrees seen moved handle
        then remove parent name recovery_name target directory seen moved
        else undo_isolation parent name recovery_name (same_posix_object moved) target_changed

  unfoldable pub isolate : DeleteRequest → ℕ → Bytes → ℕ → Bool → Stat → Action W Bool
  unfolding confirm_isolation isolated free_name or_system posix_delete_recovery_name ◌>>=◌ ◌>>◌
      pure fail observe require or_fail open_first open_second change change_nothing parts
  isolate r parent name target directory seen = do
    recovery_name ← or_system (posix_delete_recovery_name r.name_memory name)
    occupied ← observe sys (entry_at parent recovery_name)
    free_name occupied
    refused ←
        change (sys.rename_no_replace parent name parent recovery_name)
          (renamed parent name parent recovery_name)
    isolated refused
    confirm_isolation parent name recovery_name target directory seen

  abbrev pub unchanged : Stat → Result ℕ Stat → Bool
  unfolding same_stat_observation
  unchanged seen (err error) = false
  unchanged seen (ok handle) = same_stat_observation seen handle

  unfoldable pub delete_in : DeleteRequest → ℕ → Bytes → Action W Bool
  unfolding isolate verify unchanged removal_flag ◌>>=◌ ◌>>◌ pure fail observe require or_fail
      open_first open_second change change_nothing parts
  delete_in r parent name = do
    directory ← observe sys (handle_at parent)
    verify r.parent directory
    entry ← observe sys (entry_at parent name)
    seen ← verify r.target entry
    flag ← removal_flag seen
    opened ← open_second (entry_of parent name) (sys.open_entry parent name)
    target ← or_fail target_changed opened
    handle ← observe sys (handle_at target)
    require (unchanged seen handle) target_changed
    isolate r parent name target flag seen

  unfoldable pub delete_body : DeleteRequest → Action W Bool
  unfolding delete_in or_system posix_parent_and_name ◌>>=◌ ◌>>◌ pure fail observe require or_fail
      open_first open_second change change_nothing parts
  delete_body r = do
    path ← parts (posix_parent_and_name r.path_memory r.path)
    opened ← open_first (directory_of path.0) (sys.open_directory path.0)
    parent ← or_system opened
    delete_in r parent path.1

  abbrev pub start : W → State W
  start world = record { world = world; slots = no_slots; trace = []; log = [] }

  -- The result, and the world and the trace behind it.
  unfoldable pub l_fs_delete_direct_verified : DeleteRequest → W → Result Failure Bool × State W
  unfolding delete_body close_slots
  l_fs_delete_direct_verified r world =
      let ended = delete_body r (start world) in (ended.0, close_slots sys ended.1)
