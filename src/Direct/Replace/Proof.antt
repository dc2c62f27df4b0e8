-- ===== src/Direct/Replace/Proof.antt =====
-- The steps of a replacement up to the exchange, none of which changes a directory; and what the
-- whole is to show.
use yaca.Base.{ℕ, true, Option, none, some, List, [], ◌∷◌, ◌≡◌, arith, Bytes, ◌==◌, not, ◌||◌}
use yaca.Base.Result.{Result, ok}
use yaca.Process.State.{errno_code}
use yaca.Paths.{split, posix_parent_and_name}
use yaca.Metadata.{same_bytes, posix_metadata_states_equal}
use yaca.Metadata.Xattrs.{Memory, Captured, proven, unsupported, error}
use yaca.Metadata.Xattrs.Merge.{synchronize_descriptor_xattrs}
use yaca.Direct.Facts.{
  Stat, Identity, identity_from_stat, same_posix_published_facts, same_stat_observation,
}
use yaca.Direct.Capture.{capture_posix_metadata}
use yaca.Direct.System.{
  handle_at, read_metadata, Failure, target_changed, metadata_preservation_unsupported, system,
  Deed, exchanged, unlinked,
}
use yaca.Direct.Rules.{
  Stage, Leads, Fails, untouched, Undone→Fails, >>=-Leads, >>-Leads, with_fact, pure-Leads,
  fail-Leads, if-Leads, observe-Leads, look-Leads, require-Leads, or_fail-Leads,
  change_nothing-Leads,
}
use yaca.Direct.Rules.Calls.{Matches, require_only}
use yaca.Direct.Replace.{
  Replacing, ReplaceRequest, has_behavior, or_unproven, or_errno, is_exchanged, capture,
  unchanged_target, take_ownership, copy_metadata, prepare,
}

-- The candidate's metadata, when it was read last, are the target's, with the expected digest.
pub record IsPrepared (r : ReplaceRequest) (metadata : yaca.Metadata.State) : Type 0 where
  pub state : yaca.Metadata.State
  pub copied : posix_metadata_states_equal metadata state ≡ true
  pub behaves : has_behavior r.expected_behavior state ≡ true

-- What the identity that is returned stands for.
pub record Published (r : ReplaceRequest) (identity : Identity) : Type 0 where
  pub candidate : Stat
  pub target : Stat
  pub metadata : yaca.Metadata.State
  pub current : Stat
  pub published : Stat
  pub displaced : Stat
  pub candidate_expected : Matches r.temporary candidate
  pub target_expected : Matches r.target target
  pub behaves : has_behavior r.expected_behavior metadata ≡ true
  pub prepared : IsPrepared r metadata
  pub same_candidate : same_posix_published_facts current published ≡ true
  pub same_target : same_posix_published_facts target displaced ≡ true
  pub shown : identity_from_stat published ≡ some identity

-- Both names were exchanged, and the target's old file was unlinked under the candidate's name.
pub record Replaced (r : ReplaceRequest) (list : List Deed) : Type 0 where
  pub temporary : Bytes × Bytes
  pub target : Bytes × Bytes
  pub parent : ℕ
  pub temporary_named :
      posix_parent_and_name r.temporary_memory r.temporary_path ≡ split temporary.0 temporary.1
  pub target_named : posix_parent_and_name r.target_memory r.target_path ≡ split target.0 target.1
  pub one_directory : same_bytes temporary.0 target.0 ≡ true
  pub both : list ≡ unlinked parent temporary.1 ∷ exchanged parent temporary.1 target.1 ∷ []

pub is_exchanged-facts :
    (candidate target displaced published : Stat) (a b : Result ℕ Stat)
    → a ≡ ok displaced
    → b ≡ ok published
    → is_exchanged candidate target a b ≡ true
    → (same_posix_published_facts candidate published ≡ true)
      × (same_posix_published_facts target displaced ≡ true)
is_exchanged-facts candidate target displaced published a b e f h = ground (arith, e, f, h)

module _ (w : ℕ → ℕ) {W : Type 0} (sys : Replacing W) (r : ReplaceRequest) where
  pub fails : Fails w (Stage w [])
  fails = Undone→Fails w [] untouched

  or_errno-Leads :
      (answer : Option ℕ) → Leads w {W = W} (Stage w []) (λ a. Stage w []) (or_errno answer)
  unfolding or_errno
  or_errno-Leads none = pure-Leads w true λ slots trace p. p
  or_errno-Leads (some errno) =
      fail-Leads w (system (errno_code errno)) (fails (system (errno_code errno)))

  or_unproven-Leads :
      (failure : Failure) (captured : Captured yaca.Metadata.State)
      → Leads w {W = W} (Stage w []) (λ a. Stage w []) (or_unproven failure captured)
  unfolding or_unproven
  or_unproven-Leads failure (proven state) = pure-Leads w state λ slots trace p. p
  or_unproven-Leads failure unsupported = fail-Leads w failure (fails failure)
  or_unproven-Leads failure error = fail-Leads w failure (fails failure)

  pub capture-Leads :
      (failure : Failure) (descriptor : ℕ) (found : Stat) (memory : Memory)
      → Leads w (Stage w []) (λ a. Stage w []) (capture sys failure descriptor found memory)
  unfolding capture
  capture-Leads failure descriptor found memory =
      >>=-Leads w
        (look-Leads w (λ captured. read_metadata descriptor captured)
          (capture_posix_metadata sys.xattrs descriptor found memory))
        λ captured. or_unproven-Leads failure captured

  unchanged_target-Leads :
      (target : ℕ) (seen : Stat) (metadata : yaca.Metadata.State) (memory : Memory)
      → Leads w (Stage w []) (λ a. Stage w []) (unchanged_target sys target seen metadata memory)
  unfolding unchanged_target
  unchanged_target-Leads target seen metadata memory =
      >>=-Leads w (observe-Leads w sys.system (handle_at target)) λ answer.
        >>=-Leads w (or_fail-Leads w target_changed answer (fails target_changed)) λ current.
          with_fact w λ e.
            >>-Leads w
              (require_only w (same_stat_observation seen current) target_changed
                (fails target_changed))
              λ a. >>=-Leads w (capture-Leads target_changed target current memory) λ state.
                require_only w (posix_metadata_states_equal metadata state) target_changed
                  (fails target_changed)

  take_ownership-Leads :
      (candidate : ℕ) (seen target : Stat)
      → Leads w (Stage w []) (λ a. Stage w []) (take_ownership sys candidate seen target)
  unfolding take_ownership
  take_ownership-Leads candidate seen target =
      if-Leads w (not (seen.uid == target.uid) || not (seen.gid == target.gid))
        (λ differs.
          >>=-Leads w (change_nothing-Leads w (sys.chown candidate target.uid target.gid))
            λ answer. or_errno-Leads answer)
        λ equal. pure-Leads w true λ slots trace p. p

  copy_metadata-Leads :
      (candidate target : ℕ) (seen target_seen : Stat) (metadata : yaca.Metadata.State)
      → Leads w
          (Stage w [])
          (λ a. Stage w [])
          (copy_metadata sys r candidate target seen target_seen metadata)
  unfolding copy_metadata
  copy_metadata-Leads candidate target seen target_seen metadata =
      let e = metadata_preservation_unsupported in
      >>-Leads w (take_ownership-Leads candidate seen target_seen) λ a.
        >>=-Leads w (change_nothing-Leads w (sys.chmod candidate target_seen.permissions)) λ answer.
          >>-Leads w (or_errno-Leads answer) λ a.
            >>-Leads w (unchanged_target-Leads target target_seen metadata (r.memory 1)) λ a.
              >>=-Leads w (observe-Leads w sys.system (handle_at candidate)) λ answer.
                >>=-Leads w (or_fail-Leads w e answer (fails e)) λ current. with_fact w λ h.
                  >>=-Leads w (capture-Leads e candidate current (r.memory 2)) λ state.
                    >>-Leads w
                      (require_only w (state.filesystem_flags == metadata.filesystem_flags) e
                        (fails e))
                      λ a.
                        >>=-Leads w
                          (change_nothing-Leads w (
                            synchronize_descriptor_xattrs sys.xattrs candidate state.xattrs
                              metadata.xattrs))
                          λ answer. >>-Leads w (or_errno-Leads answer) λ a.
                            >>=-Leads w (change_nothing-Leads w (sys.system.fsync candidate))
                              λ answer. or_errno-Leads answer

  pub prepare-Leads :
      (candidate target : ℕ) (seen target_seen : Stat) (metadata : yaca.Metadata.State)
      → Leads w
          (Stage w [])
          (λ current slots trace. IsPrepared r metadata × Stage w [] slots trace)
          (prepare sys r candidate target seen target_seen metadata)
  unfolding prepare
  prepare-Leads candidate target seen target_seen metadata =
      let e = metadata_preservation_unsupported in
      >>-Leads w (copy_metadata-Leads candidate target seen target_seen metadata) λ a.
        >>-Leads w (unchanged_target-Leads target target_seen metadata (r.memory 3)) λ a.
          >>=-Leads w (observe-Leads w sys.system (handle_at candidate)) λ answer.
            >>=-Leads w (or_fail-Leads w e answer (fails e)) λ current. with_fact w λ h.
              >>=-Leads w (capture-Leads e candidate current (r.memory 4)) λ state.
                >>-Leads w
                  (require-Leads w (posix_metadata_states_equal metadata state) e (fails e))
                  λ a. with_fact w λ copied.
                    >>-Leads w
                      (require-Leads w (has_behavior r.expected_behavior state) e (fails e))
                      λ a. with_fact w λ behaves. pure-Leads w current λ slots trace p.
                        (record { state = state; copied = copied; behaves = behaves }, p)
