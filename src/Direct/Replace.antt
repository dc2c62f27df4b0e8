-- ===== src/Direct/Replace.antt =====
-- `l_fs_replace_verified`.
pub mod Proof
pub mod Steps
pub mod Evidence
pub mod Outcome
pub mod Promise
mod Examples
use yaca.Base.{
  ℕ, Bool, true, false, ◌&&◌, ◌||◌, not, Option, none, some, List, [], ◌∷◌, ◌==◌, ltb, Bytes,
  length, if◌then◌else◌,
}
use yaca.Base.Result.{Result, ok, err}
use yaca.Process.State.{errno_code}
use yaca.Paths.{posix_parent_and_name}
use yaca.Metadata.{same_bytes, posix_behavior_digest, posix_metadata_states_equal}
use yaca.Metadata.Xattrs.{Calls, Memory, Captured, proven, unsupported, error}
use yaca.Metadata.Xattrs.Merge.{synchronize_descriptor_xattrs}
use yaca.Direct.Facts.{
  Stat, Identity, is_regular, identity_from_stat, same_posix_object, same_posix_published_facts,
  same_stat_observation,
}
use yaca.Direct.Capture.{capture_posix_metadata}
use yaca.Direct.System.{
  directory_of, entry_at, entry_of, handle_at, read_metadata, System, State, no_slots, Failure,
  target_changed, invalid_target_type, invalid_metadata, metadata_preservation_unsupported, unknown,
  system, exchanged, unlinked, Action, pure, fail, ◌>>=◌, ◌>>◌, observe, look, require, or_fail,
  open_first, open_second, open_third, change, change_nothing, parts, rename_failure, is_none,
  Expected, verify, close_slots,
}
use yaca.Direct.Rename.{done_or, receipt}

-- The further calls: `openat` for the candidate and for the target, RENAME_EXCHANGE of two names in
-- one directory, `fchown`, `fchmod`, and those for extended attributes.
pub record Replacing (W : Type 0) : Type 0 where
  pub system : System W
  pub open_candidate : ℕ → Bytes → W → Result ℕ ℕ × W
  pub open_target : ℕ → Bytes → W → Result ℕ ℕ × W
  pub exchange : ℕ → Bytes → Bytes → W → Option ℕ × W
  pub chown : ℕ → ℕ → ℕ → W → Option ℕ × W
  pub chmod : ℕ → ℕ → W → Option ℕ × W
  pub xattrs : Calls W

-- The arguments; the memory is that of the two splits and of the five captures in their order.
pub record ReplaceRequest : Type 0 where
  pub temporary_path : Bytes
  pub target_path : Bytes
  pub temporary : Expected
  pub target : Expected
  pub target_parent : Expected
  pub expected_behavior : Bytes
  pub temporary_memory : Bool
  pub target_memory : Bool
  pub memory : ℕ → Memory

abbrev pub is_text : Bytes → Option Bytes → Bool
is_text expected none = false
is_text expected (some text) = same_bytes text expected

-- The digest is there and is what the caller expects.
unfoldable pub has_behavior : Bytes → yaca.Metadata.State → Bool
unfolding posix_behavior_digest
has_behavior expected state = is_text expected (posix_behavior_digest state)

abbrev pub is_single : Stat → Bool
is_single found = is_regular found && (found.links == 1)

unfoldable pub or_unproven :
    {W : Type 0} → Failure → Captured yaca.Metadata.State → Action W yaca.Metadata.State
unfolding pure fail
or_unproven failure (proven state) = pure state
or_unproven failure unsupported = fail failure
or_unproven failure error = fail failure

-- A call that has to succeed, or its `errno` is the failure.
unfoldable pub or_errno : {W : Type 0} → Option ℕ → Action W Bool
unfolding pure fail errno_code
or_errno none = pure true
or_errno (some errno) = fail (system (errno_code errno))

abbrev pub has_identity : Option Identity → Bool
has_identity none = false
has_identity (some identity) = true

-- Both entries have been seen with the facts that they had.
abbrev pub is_exchanged : Stat → Stat → Result ℕ Stat → Result ℕ Stat → Bool
is_exchanged candidate target (ok displaced) (ok published) =
    same_posix_published_facts candidate published && same_posix_published_facts target displaced
is_exchanged candidate target displaced published = false

abbrev pub is_observed : Stat → Result ℕ Stat → Bool
is_observed seen (err errno) = false
is_observed seen (ok found) = same_stat_observation seen found

module _ {W : Type 0} (sys : Replacing W) where
  unfoldable pub capture : Failure → ℕ → Stat → Memory → Action W yaca.Metadata.State
  unfolding ◌>>=◌ look or_unproven capture_posix_metadata
  capture failure descriptor found memory = do
    captured ←
        look (λ captured. read_metadata descriptor captured)
          (capture_posix_metadata sys.xattrs descriptor found memory)
    or_unproven failure captured

  -- The target is still what was seen of it, with the same metadata.
  unfoldable pub unchanged_target : ℕ → Stat → yaca.Metadata.State → Memory → Action W Bool
  unfolding ◌>>=◌ ◌>>◌ observe require or_fail capture posix_metadata_states_equal
      same_stat_observation
  unchanged_target target seen metadata memory = do
    answer ← observe sys.system (handle_at target)
    current ← or_fail target_changed answer
    require (same_stat_observation seen current) target_changed
    state ← capture target_changed target current memory
    require (posix_metadata_states_equal metadata state) target_changed

  unfoldable pub take_ownership : ℕ → Stat → Stat → Action W Bool
  unfolding ◌>>=◌ pure change_nothing or_errno
  take_ownership candidate seen target =
      if not (seen.uid == target.uid) || not (seen.gid == target.gid)
      then (change_nothing (sys.chown candidate target.uid target.gid) >>= λ answer.
          or_errno answer)
      else pure true

  -- Owner, mode and attributes of the target, for the candidate.
  unfoldable pub copy_metadata :
      ReplaceRequest → ℕ → ℕ → Stat → Stat → yaca.Metadata.State → Action W Bool
  unfolding ◌>>=◌ ◌>>◌ observe require or_fail change_nothing or_errno capture unchanged_target
      take_ownership synchronize_descriptor_xattrs
  copy_metadata r candidate target seen target_seen metadata = do
    take_ownership candidate seen target_seen
    mode_set ← change_nothing (sys.chmod candidate target_seen.permissions)
    or_errno mode_set
    unchanged_target target target_seen metadata (r.memory 1)
    answer ← observe sys.system (handle_at candidate)
    current ← or_fail metadata_preservation_unsupported answer
    state ← capture metadata_preservation_unsupported candidate current (r.memory 2)
    require (state.filesystem_flags == metadata.filesystem_flags) metadata_preservation_unsupported
    synchronized ←
        change_nothing
          (synchronize_descriptor_xattrs sys.xattrs candidate state.xattrs metadata.xattrs)
    or_errno synchronized
    flushed ← change_nothing (sys.system.fsync candidate)
    or_errno flushed

  -- The candidate as it is to be published, with the target's metadata.
  unfoldable pub prepare :
      ReplaceRequest → ℕ → ℕ → Stat → Stat → yaca.Metadata.State → Action W Stat
  unfolding ◌>>=◌ ◌>>◌ pure observe require or_fail capture copy_metadata unchanged_target
      has_behavior posix_metadata_states_equal
  prepare r candidate target seen target_seen metadata = do
    copy_metadata r candidate target seen target_seen metadata
    unchanged_target target target_seen metadata (r.memory 3)
    answer ← observe sys.system (handle_at candidate)
    current ← or_fail metadata_preservation_unsupported answer
    state ← capture metadata_preservation_unsupported candidate current (r.memory 4)
    require (posix_metadata_states_equal metadata state) metadata_preservation_unsupported
    require (has_behavior r.expected_behavior state) metadata_preservation_unsupported
    pure current

  -- Another entry came between: both names are exchanged again.
  unfoldable pub undo_exchange :
      ℕ → Bytes → Bytes → Stat → Result ℕ Stat → Result ℕ Stat → Action W Identity
  unfolding ◌>>=◌ ◌>>◌ fail observe require or_fail change same_posix_object
  undo_exchange parent temporary_name target_name seen at_temporary at_target = do
    displaced ← or_fail unknown at_temporary
    published ← or_fail unknown at_target
    require (same_posix_object seen published) unknown
    refused ←
        change (sys.exchange parent temporary_name target_name)
          (exchanged parent temporary_name target_name)
    require (is_none refused) unknown
    answer ← observe sys.system (entry_at parent temporary_name)
    back ← or_fail unknown answer
    answer ← observe sys.system (entry_at parent target_name)
    target_back ← or_fail unknown answer
    require (same_posix_object seen back) unknown
    require (same_posix_object displaced target_back) unknown
    fail target_changed

  -- Behind the exchange the handles must tell the same, and the displaced file is removed.
  unfoldable pub finish_exchange :
      ℕ → ℕ → ℕ → Bytes → Result ℕ Stat → Result ℕ Stat → Action W Identity
  unfolding ◌>>=◌ ◌>>◌ observe require or_fail change receipt same_stat_observation
      identity_from_stat
  finish_exchange parent candidate target temporary_name at_temporary at_target = do
    displaced ← or_fail unknown at_temporary
    published ← or_fail unknown at_target
    answer ← observe sys.system (handle_at candidate)
    require (is_observed published answer) unknown
    answer ← observe sys.system (handle_at target)
    require (is_observed displaced answer) unknown
    refused ←
        change (sys.system.unlink parent temporary_name false) (unlinked parent temporary_name)
    require (is_none refused) unknown
    receipt (identity_from_stat published)

  -- The exchange, and what follows of what is seen then.
  unfoldable pub publish : ℕ → ℕ → ℕ → Bytes → Bytes → Stat → Stat → Stat → Action W Identity
  unfolding ◌>>=◌ ◌>>◌ observe change done_or undo_exchange finish_exchange
      same_posix_published_facts
  publish parent candidate target temporary_name target_name seen current target_seen = do
    refused ←
        change (sys.exchange parent temporary_name target_name)
          (exchanged parent temporary_name target_name)
    done_or refused
    at_temporary ← observe sys.system (entry_at parent temporary_name)
    at_target ← observe sys.system (entry_at parent target_name)
    if is_exchanged current target_seen at_temporary at_target
        then finish_exchange parent candidate target temporary_name at_temporary at_target
        else undo_exchange parent temporary_name target_name seen at_temporary at_target

  -- With both files open: what they are, and that they are what the caller expects.
  unfoldable pub replace_opened : ReplaceRequest → ℕ → Bytes → Bytes → ℕ → ℕ → Action W Identity
  unfolding ◌>>=◌ ◌>>◌ observe require or_fail verify capture has_behavior prepare publish
      identity_from_stat
  replace_opened r parent temporary_name target_name candidate target = do
    answer ← observe sys.system (handle_at candidate)
    found ← or_fail target_changed answer
    answer ← observe sys.system (handle_at target)
    target_found ← or_fail target_changed answer
    require (is_single found && is_single target_found) target_changed
    require
        (has_identity (identity_from_stat found) && has_identity (identity_from_stat target_found))
        target_changed
    seen ← verify r.temporary (ok found)
    target_seen ← verify r.target (ok target_found)
    metadata ← capture metadata_preservation_unsupported target target_seen (r.memory 0)
    require (has_behavior r.expected_behavior metadata) metadata_preservation_unsupported
    current ← prepare r candidate target seen target_seen metadata
    publish parent candidate target temporary_name target_name seen current target_seen

  unfoldable pub replace_in : ReplaceRequest → ℕ → Bytes → Bytes → Action W Identity
  unfolding ◌>>=◌ ◌>>◌ observe or_fail open_second open_third verify replace_opened
  replace_in r parent temporary_name target_name = do
    answer ← observe sys.system (handle_at parent)
    verify r.target_parent answer
    candidate_opened ←
        open_second (entry_of parent temporary_name) (sys.open_candidate parent temporary_name)
    target_opened ← open_third (entry_of parent target_name) (sys.open_target parent target_name)
    candidate ← or_fail target_changed candidate_opened
    target ← or_fail target_changed target_opened
    replace_opened r parent temporary_name target_name candidate target

  unfoldable pub replace_body : ReplaceRequest → Action W Identity
  unfolding ◌>>=◌ ◌>>◌ require or_fail open_first parts replace_in posix_parent_and_name
  replace_body r = do
    require (ltb (length r.expected_behavior) 96) invalid_metadata
    temporary ← parts (posix_parent_and_name r.temporary_memory r.temporary_path)
    target ← parts (posix_parent_and_name r.target_memory r.target_path)
    require (same_bytes temporary.0 target.0) invalid_target_type
    opened ← open_first (directory_of target.0) (sys.system.open_directory target.0)
    parent ← or_fail target_changed opened
    replace_in r parent temporary.1 target.1

  abbrev pub start : W → State W
  start world = record { world = world; slots = no_slots; trace = []; log = [] }

  -- The result, and the world and the trace behind it.
  unfoldable pub l_fs_replace_verified : ReplaceRequest → W → Result Failure Identity × State W
  unfolding replace_body close_slots
  l_fs_replace_verified r world =
      let ended = replace_body r (start world) in (ended.0, close_slots sys.system ended.1)
