-- ===== src/Files/Opening.antt =====
-- `l_fs_open_read`, `l_fs_create_new` and their verified variants.
pub mod Owned
pub mod Balance
pub mod Verified
pub mod Created
use yaca.Base.{ℕ, Bool, true, false, Option, none, some, List, [], ◌∷◌, ◌==◌, Bytes, if◌then◌else◌}
use yaca.Base.Int.{ℤ}
use yaca.Base.Result.{Result, ok, err}
use yaca.Process.State.{errno_code}
use yaca.Paths.{
  SplitResult, split, refused_entry, refused_basename, no_memory, posix_parent_and_name,
}
use yaca.Direct.Facts.{Stat, Identity, is_regular, identity_from_stat, identity_matches_lua}
use yaca.Direct.System.{Expected}
use yaca.Files.{
  Calls, Failure, invalid_path, invalid_permissions, storage, target_changed, raised, system, Deed,
  opened, created, looked, File, State, file_of, deed_done, close_descriptor, checked_byte_string,
  admitted_permissions,
}

abbrev pub is_absolute : Bytes → Bool
is_absolute [] = false
is_absolute (b ∷ path) = b == 47

module _ {W : Type 0} (sys : Calls W) where
  -- The file of a new descriptor.
  abbrev pub file_opened : (ℕ → Deed) → Result ℕ ℕ → State W → Result Failure File × State W
  file_opened deed (err error) s = (err (system (errno_code error)), s)
  file_opened deed (ok d) s = (ok (file_of d), deed_done (deed d) s.world s)

  unfoldable pub l_fs_open_read : Bytes → State W → Result Failure File × State W
  unfolding checked_byte_string errno_code
  l_fs_open_read path s =
      if checked_byte_string path
      then (let answer = sys.open_read path s.world in
          file_opened opened answer.0 (record s { world = answer.1 }))
      else (err invalid_path, s)

  abbrev pub create_admitted : Option ℕ → Bytes → State W → Result Failure File × State W
  create_admitted none path s = (err invalid_permissions, s)
  create_admitted (some permissions) path s =
      let answer = sys.create_new path permissions s.world in
      file_opened created answer.0 (record s { world = answer.1 })

  unfoldable pub l_fs_create_new : Bytes → ℤ → State W → Result Failure File × State W
  unfolding checked_byte_string admitted_permissions errno_code
  l_fs_create_new path permissions s =
      if checked_byte_string path
      then create_admitted (admitted_permissions permissions) path s
      else (err invalid_path, s)

  abbrev pub identity_failure : Expected → Option Identity → Option Failure
  identity_failure expected none = some target_changed
  identity_failure expected (some identity) =
      if expected.raises
      then some raised
      else if identity_matches_lua expected.get identity
      then none
      else some target_changed

  -- `descriptor_matches_lua`, by the answer of its call: how it fails, if it does.
  abbrev pub match_failure : Expected → Result ℕ Stat → Option Failure
  match_failure expected (err error) = some target_changed
  match_failure expected (ok found) = identity_failure expected (identity_from_stat found)

  -- The same for a file, which must be a regular one.
  abbrev pub file_failure : Expected → Result ℕ Stat → Option Failure
  file_failure expected (err error) = some target_changed
  file_failure expected (ok found) =
      if is_regular found
      then identity_failure expected (identity_from_stat found)
      else some target_changed

  -- The file, or the failure behind the closing of its descriptor. If a getter raises an error, it
  -- is the finalizer that closes.
  abbrev pub kept_or_closed : ℕ → Option Failure → State W → Result Failure File × State W
  kept_or_closed d none s = (ok (file_of d), s)
  kept_or_closed d (some failure) s = (err failure, close_descriptor sys (some d) s)

  abbrev pub verify_opened : Expected → Result ℕ ℕ → State W → Result Failure File × State W
  verify_opened expected (err error) s = (err (system (errno_code error)), s)
  verify_opened expected (ok d) s =
      let answer = sys.fstat (some d) s.world in
      kept_or_closed d (file_failure expected answer.0)
        (deed_done (looked (some d)) answer.1 (deed_done (opened d) s.world s))

  unfoldable pub l_fs_open_read_verified :
      Bytes → Expected → State W → Result Failure File × State W
  unfolding checked_byte_string errno_code identity_from_stat identity_matches_lua
  l_fs_open_read_verified path expected s =
      if checked_byte_string path
      then (if is_absolute path
          then (let answer = sys.open_no_follow path s.world in
              verify_opened expected answer.0 (record s { world = answer.1 }))
          else (err invalid_path, s))
      else (err invalid_path, s)

  -- The new file in the parent that is open, which is closed then.
  abbrev pub create_child : ℕ → Bytes → ℕ → Option Failure → State W → Result Failure File × State W
  create_child parent name permissions (some failure) s =
      (err failure, close_descriptor sys (some parent) s)
  create_child parent name permissions none s =
      let answer = sys.create_at parent name permissions s.world in
      let ended = file_opened created answer.0 (record s { world = answer.1 }) in
      (ended.0, close_descriptor sys (some parent) ended.1)

  abbrev pub create_below :
      Expected → Bytes → ℕ → Result ℕ ℕ → State W → Result Failure File × State W
  create_below expected name permissions (err error) s = (err (system (errno_code error)), s)
  create_below expected name permissions (ok parent) s =
      let answer = sys.fstat (some parent) s.world in
      create_child parent name permissions (match_failure expected answer.0)
        (deed_done (looked (some parent)) answer.1 (deed_done (opened parent) s.world s))

  abbrev pub create_split : Expected → ℕ → SplitResult → State W → Result Failure File × State W
  create_split expected permissions refused_entry s = (err invalid_path, s)
  create_split expected permissions refused_basename s = (err invalid_path, s)
  create_split expected permissions no_memory s = (err storage, s)
  create_split expected permissions (split parent name) s =
      let answer = sys.open_directory parent s.world in
      create_below expected name permissions answer.0 (record s { world = answer.1 })

  abbrev pub create_verified :
      Expected → Option ℕ → Bool → Bytes → State W → Result Failure File × State W
  create_verified expected none memory path s = (err invalid_permissions, s)
  create_verified expected (some permissions) memory path s =
      create_split expected permissions (posix_parent_and_name memory path) s

  unfoldable pub l_fs_create_new_verified :
      Bool → Bytes → Expected → ℤ → State W → Result Failure File × State W
  unfolding checked_byte_string admitted_permissions errno_code identity_from_stat
      identity_matches_lua posix_parent_and_name
  l_fs_create_new_verified memory path expected permissions s =
      if checked_byte_string path
      then create_verified expected (admitted_permissions permissions) memory path s
      else (err invalid_path, s)
