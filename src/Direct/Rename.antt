-- ===== src/Direct/Rename.antt =====
-- `l_fs_rename_no_replace_verified`.
pub mod Proof
pub mod Evidence
use yaca.Base.{
  ℕ, Bool, true, false, ◌&&◌, ◌||◌, not, Option, none, some, List, [], ◌∷◌, ◌==◌, Bytes,
  if◌then◌else◌,
}
use yaca.Base.Result.{Result, ok, err}
use yaca.Process.State.{errno_code}
use yaca.Paths.{posix_parent_and_name}
use yaca.Direct.Facts.{
  Stat, Identity, is_regular, is_directory, identity_from_stat, same_posix_object,
  same_posix_published_facts,
}
use yaca.Direct.System.{
  directory_of, entry_at, handle_at, System, State, Slots, no_slots, Failure, target_changed,
  destination_exists, invalid_target_type, unknown, system, Deed, renamed, Action, pure, fail,
  ◌>>=◌, ◌>>◌, observe, require, or_fail, open_first, open_second, change, parts, rename_failure,
  enoent, is_absent, is_none, Expected, verify, restore, close_slots,
}

-- The arguments; the memory is that of the two splits of paths.
pub record RenameRequest : Type 0 where
  pub source_path : Bytes
  pub target_path : Bytes
  pub source : Expected
  pub source_parent : Expected
  pub target_parent : Expected
  pub source_memory : Bool
  pub target_memory : Bool

-- A regular file with one name, or a directory.
abbrev pub is_movable : Stat → Bool
is_movable s = (is_regular s && (s.links == 1)) || is_directory s

-- The destination must not exist.
unfoldable pub missing : {W : Type 0} → Result ℕ Stat → Action W Bool
unfolding errno_code fail require
missing (ok s) = fail destination_exists
missing (err error) = require (error == enoent) (system (errno_code error))

unfoldable pub done_or : {W : Type 0} → Option ℕ → Action W Bool
unfolding pure fail errno_code
done_or none = pure true
done_or (some error) = fail (rename_failure error)

unfoldable pub receipt : {W : Type 0} → Option Identity → Action W Identity
unfolding pure fail
receipt none = fail unknown
receipt (some identity) = pure identity

module _ {W : Type 0} (sys : System W) where
  -- What stands at the target is not what was looked at: it is put back.
  unfoldable pub undo_rename : ℕ → Bytes → ℕ → Bytes → Stat → Action W Identity
  unfolding restore same_posix_object ◌>>=◌ ◌>>◌ pure fail observe require or_fail open_first
      open_second change parts
  undo_rename source source_name target target_name moved = do
    restore sys source source_name target target_name (same_posix_object moved)
    fail target_changed

  -- Behind the rename: both names are looked at again.
  unfoldable pub confirm_rename : ℕ → Bytes → ℕ → Bytes → Stat → Action W Identity
  unfolding undo_rename receipt same_posix_published_facts identity_from_stat ◌>>=◌ ◌>>◌ pure fail
      observe require or_fail open_first open_second change parts
  confirm_rename source source_name target target_name seen = do
    at_target ← observe sys (entry_at target target_name)
    at_source ← observe sys (entry_at source source_name)
    moved ← or_fail unknown at_target
    require (is_absent at_source) unknown
    if same_posix_published_facts seen moved
        then receipt (identity_from_stat moved)
        else undo_rename source source_name target target_name moved

  unfoldable pub rename_between : RenameRequest → ℕ → Bytes → ℕ → Bytes → Action W Identity
  unfolding confirm_rename verify missing done_or ◌>>=◌ ◌>>◌ pure fail observe require or_fail
      open_first open_second change parts
  rename_between r source source_name target target_name = do
    parent ← observe sys (handle_at source)
    verify r.source_parent parent
    parent ← observe sys (handle_at target)
    verify r.target_parent parent
    entry ← observe sys (entry_at source source_name)
    seen ← verify r.source entry
    occupied ← observe sys (entry_at target target_name)
    missing occupied
    require (is_movable seen) invalid_target_type
    refused ←
        change (sys.rename_no_replace source source_name target target_name)
          (renamed source source_name target target_name)
    done_or refused
    confirm_rename source source_name target target_name seen

  unfoldable pub rename_body : RenameRequest → Action W Identity
  unfolding rename_between posix_parent_and_name ◌>>=◌ ◌>>◌ pure fail observe require or_fail
      open_first open_second change parts
  rename_body r = do
    source ← parts (posix_parent_and_name r.source_memory r.source_path)
    target ← parts (posix_parent_and_name r.target_memory r.target_path)
    source_opened ← open_first (directory_of source.0) (sys.open_directory source.0)
    target_opened ← open_second (directory_of target.0) (sys.open_directory target.0)
    source_parent ← or_fail target_changed source_opened
    target_parent ← or_fail target_changed target_opened
    rename_between r source_parent source.1 target_parent target.1

  abbrev pub start : W → State W
  start world = record { world = world; slots = no_slots; trace = []; log = [] }

  -- The result, and the world and the trace behind it.
  unfoldable pub l_fs_rename_no_replace_verified :
      RenameRequest → W → Result Failure Identity × State W
  unfolding rename_body close_slots
  l_fs_rename_no_replace_verified r world =
      let ended = rename_body r (start world) in (ended.0, close_slots sys ended.1)
