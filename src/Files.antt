-- ===== src/Files.antt =====
-- `yaca_file` on POSIX systems: the functions that open a file, and those on an open one.

pub mod Writing
pub mod Life
pub mod Opening
mod Examples
use yaca.Base.{
  ℕ, zero, suc, Bool, true, false, not, ◌&&◌, Option, none, some, List, [], ◌∷◌, ◌==◌, ltb, Bytes,
  length, take, drop, if◌then◌else◌,
}
use yaca.Base.Int.{ℤ, pos, negsuc}
use yaca.Base.Result.{Result, ok, err}
use yaca.Process.State.{Code, errno_code}
use yaca.Paths.{
  SplitResult, split, refused_entry, refused_basename, no_memory, posix_parent_and_name, size_max,
}
use yaca.Direct.Facts.{Stat, Identity, is_regular, identity_from_stat, identity_matches_lua}
use yaca.Direct.System.{Expected}

-- The calls on a descriptor, where `none` is -1, and those that open one. An answer is an `errno`
-- where the call fails; `errno` is the variable's value behind a call that does not fail.
pub record Calls (W : Type 0) : Type 0 where
  pub open_read : Bytes → W → Result ℕ ℕ × W
  pub open_no_follow : Bytes → W → Result ℕ ℕ × W
  pub open_directory : Bytes → W → Result ℕ ℕ × W
  pub create_new : Bytes → ℕ → W → Result ℕ ℕ × W
  pub create_at : ℕ → Bytes → ℕ → W → Result ℕ ℕ × W
  pub read : Option ℕ → ℕ → W → Result ℕ Bytes × W
  pub seek : Option ℕ → ℕ → W → Result ℕ ℕ × W
  pub write : Option ℕ → Bytes → W → Result ℕ ℕ × W
  pub fsync : Option ℕ → W → Option ℕ × W
  pub fstat : Option ℕ → W → Result ℕ Stat × W
  pub close : ℕ → W → W
  pub errno : W → ℕ

-- The codes of the failures; `raised` is an error of Lua.
pub data Failure : Type 0 where
  limit closed_handle invalid_path invalid_permissions storage target_changed raised : Failure
  system : Code → Failure

-- What has been done, the last one first; `wrote` has the bytes that the system took.
pub data Deed : Type 0 where
  opened created closed : ℕ → Deed
  looked read_some moved flushed : Option ℕ → Deed
  wrote : Option ℕ → Bytes → Deed

pub record File : Type 0 where
  pub descriptor : Option ℕ
  pub closed : Bool

pub record State (W : Type 0) : Type 0 where
  pub world : W
  pub trace : List Deed

pub data Reply : Type 0 where
  failed : Failure → Reply
  done : Reply
  bytes_read : Bytes → Bool → Reply
  number : ℕ → Reply
  identity_read : Identity → Reply

abbrev pub has_nul : Bytes → Bool
has_nul [] = false
has_nul (b ∷ bytes) = if b == 0 then true else has_nul bytes

unfoldable pub checked_byte_string : Bytes → Bool
checked_byte_string bytes = not (length bytes == 0) && not (has_nul bytes)

-- The permissions of a new file, from 0 to 0777.
unfoldable pub admitted_permissions : ℤ → Option ℕ
admitted_permissions (negsuc n) = none
admitted_permissions (pos n) = if ltb 511 n then none else some n

abbrev pub file_of : ℕ → File
file_of d = record { descriptor = some d; closed = false }

abbrev pub deed_done : {W : Type 0} → Deed → W → State W → State W
deed_done deed world s = record { world = world; trace = deed ∷ s.trace }

module _ {W : Type 0} (sys : Calls W) where
  abbrev pub close_descriptor : Option ℕ → State W → State W
  close_descriptor none s = s
  close_descriptor (some d) s = deed_done (closed d) (sys.close d s.world) s

  abbrev pub close_open : Bool → File → State W → File × State W
  close_open true file s = (file, s)
  close_open false file s =
      (record { descriptor = none; closed = true }, close_descriptor file.descriptor s)

  unfoldable pub close_file : File → State W → File × State W
  close_file file s = close_open file.closed file s

  unfoldable pub l_file_gc : File → State W → File × State W
  unfolding close_file
  l_file_gc file s = close_file file s

  unfoldable pub l_fs_close : File → State W → Reply × (File × State W)
  unfolding close_file
  l_fs_close file s =
      if file.closed then (failed closed_handle, (file, s)) else (done, close_file file s)

  abbrev pub read_reply : Result ℕ Bytes → Reply
  read_reply (err error) = failed (system (errno_code error))
  read_reply (ok bytes) = bytes_read bytes (length bytes == 0)

  abbrev pub admitted_request : ℤ → Option ℕ
  admitted_request (negsuc n) = none
  admitted_request (pos n) = if n == 0 then none else if ltb size_max n then none else some n

  abbrev pub read_admitted : Option ℕ → File → State W → Reply × State W
  read_admitted none file s = (failed limit, s)
  read_admitted (some requested) file s =
      let answer = sys.read file.descriptor requested s.world in
      (read_reply answer.0, deed_done (read_some file.descriptor) answer.1 s)

  unfoldable pub l_fs_read : File → ℤ → State W → Reply × State W
  unfolding errno_code
  l_fs_read file requested s =
      if file.closed then (failed raised, s) else read_admitted (admitted_request requested) file s

  abbrev pub seek_reply : Result ℕ ℕ → Reply
  seek_reply (err error) = failed (system (errno_code error))
  seek_reply (ok position) = number position

  abbrev pub seek_admitted : ℤ → File → State W → Reply × State W
  seek_admitted (negsuc n) file s = (failed limit, s)
  seek_admitted (pos offset) file s =
      let answer = sys.seek file.descriptor offset s.world in
      (seek_reply answer.0, deed_done (moved file.descriptor) answer.1 s)

  unfoldable pub l_fs_seek : File → ℤ → State W → Reply × State W
  unfolding errno_code
  l_fs_seek file offset s = if file.closed then (failed raised, s) else seek_admitted offset file s

  -- Behind one call: a failure, no byte, or `count` bytes of the rest.
  abbrev pub write_answered :
      (Bytes → State W → Option Code × State W)
      → Option ℕ
      → Bytes
      → Result ℕ ℕ
      → State W
      → Option Code × State W
  write_answered next d rest (err error) s = (some (errno_code error), s)
  write_answered next d rest (ok zero) s = (some (errno_code (sys.errno s.world)), s)
  write_answered next d rest (ok (suc count)) s =
      next (drop (suc count) rest) (deed_done (wrote d (take (suc count) rest)) s.world s)

  -- The loop, over the bytes that are left.
  unfoldable pub write_loop : ℕ → Option ℕ → Bytes → State W → Option Code × State W
  unfolding errno_code
  write_loop fuel d [] s = (none, s)
  write_loop zero d (b ∷ rest) s = (none, s)
  write_loop (suc fuel) d (b ∷ rest) s =
      let answer = sys.write d (b ∷ rest) s.world in
      write_answered (λ rest s. write_loop fuel d rest s) d (b ∷ rest) answer.0
        (record s { world = answer.1 })

  abbrev pub write_reply : Bytes → Option Code → Reply
  write_reply bytes none = number (length bytes)
  write_reply bytes (some code) = failed (system code)

  unfoldable pub l_fs_write : File → Bytes → State W → Reply × State W
  unfolding write_loop
  l_fs_write file bytes s =
      if file.closed
      then (failed raised, s)
      else (let ended = write_loop (length bytes) file.descriptor bytes s in
          (write_reply bytes ended.0, ended.1))

  abbrev pub flush_reply : Option ℕ → Reply
  flush_reply none = done
  flush_reply (some error) = failed (system (errno_code error))

  unfoldable pub l_fs_flush_file : File → State W → Reply × State W
  unfolding errno_code
  l_fs_flush_file file s =
      if file.closed
      then (failed raised, s)
      else (let answer = sys.fsync file.descriptor s.world in
          (flush_reply answer.0, deed_done (flushed file.descriptor) answer.1 s))

  abbrev pub identity_reply : ℕ → Option Identity → Reply
  identity_reply errno none = failed (system (errno_code errno))
  identity_reply errno (some identity) = identity_read identity

  abbrev pub stat_reply : W → Result ℕ Stat → Reply
  stat_reply world (err error) = failed (system (errno_code error))
  stat_reply world (ok found) = identity_reply (sys.errno world) (identity_from_stat found)

  -- With a handle as the argument.
  unfoldable pub l_fs_stat_identity : File → State W → Reply × State W
  unfolding errno_code identity_from_stat
  l_fs_stat_identity file s =
      if file.closed
      then (failed closed_handle, s)
      else (let answer = sys.fstat file.descriptor s.world in
          (stat_reply answer.1 answer.0, deed_done (looked file.descriptor) answer.1 s))
