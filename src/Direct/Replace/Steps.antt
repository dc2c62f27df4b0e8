-- ===== src/Direct/Replace/Steps.antt =====
-- What the log shows of the steps of a replacement up to the exchange.
use yaca.Base.{
  ℕ, true, ◌||◌, not, Option, none, some, List, [], ◌∷◌, ◌++◌, ◌==◌, ◌≡◌, refl, sym, append_assoc,
  subst,
}
use yaca.Base.Result.{ok}
use yaca.Process.State.{errno_code}
use yaca.Metadata.{posix_metadata_states_equal}
use yaca.Metadata.Xattrs.{Memory, Captured, proven, unsupported, error}
use yaca.Metadata.Xattrs.Merge.{synchronize_descriptor_xattrs}
use yaca.Direct.Facts.{Stat, same_stat_observation}
use yaca.Direct.Capture.{capture_posix_metadata}
use yaca.Direct.System.{
  State, Failure, target_changed, metadata_preservation_unsupported, system, Deed, Event, saw,
  read_metadata, handle_at, change_nothing,
}
use yaca.Direct.Evidence.{
  Shows, given-Shows, weaken-Shows, pure-Shows, fail-Shows, if-Shows, fact-Shows, or_fail-Shows,
  >>=-Shows, >>-Shows, Is, require-Shows, observe-Shows, look-Shows, change_nothing-Shows,
}
use yaca.Direct.Replace.{
  Replacing, ReplaceRequest, has_behavior, or_unproven, or_errno, capture, unchanged_target,
  take_ownership, copy_metadata, prepare,
}

-- Some events more, and no change.
abbrev pub More : {W : Type 0} → List Event → State W → Type 0
More log s = (extra : List Event) × Is (extra ++ log) [] s

-- What the candidate's metadata were when they were read last, and the events before that.
pub record Prepared (r : ReplaceRequest) (metadata : yaca.Metadata.State) : Type 0 where
  pub state : yaca.Metadata.State
  pub extra : List Event
  pub copied : posix_metadata_states_equal metadata state ≡ true
  pub behaves : has_behavior r.expected_behavior state ≡ true

module _ {W : Type 0} (sys : Replacing W) (r : ReplaceRequest) where
  nothing-Shows :
      {log : List Event}
      → {list : List Deed} → (call : W → Option ℕ × W)
      → Shows (Is log list) (λ a. Is log list) (change_nothing call)
  nothing-Shows call =
      change_nothing-Shows (λ s w p. record { events = p.events; listed = p.listed }) call

  or_errno-Shows : {P : State W → Type 0} → (answer : Option ℕ) → Shows P (λ a. P) (or_errno answer)
  unfolding or_errno
  or_errno-Shows none = pure-Shows true λ s p. p
  or_errno-Shows (some errno) = fail-Shows (system (errno_code errno))

  or_unproven-Shows :
      {P : State W → Type 0}
      → (failure : Failure) (captured : Captured yaca.Metadata.State)
      → Shows P (λ a s. (captured ≡ proven a) × P s) (or_unproven failure captured)
  unfolding or_unproven
  or_unproven-Shows failure (proven state) = pure-Shows state λ s p. (refl, p)
  or_unproven-Shows failure unsupported = fail-Shows failure
  or_unproven-Shows failure error = fail-Shows failure

  pub capture-Shows :
      {log : List Event}
      → {list : List Deed} → (failure : Failure) (d : ℕ) (found : Stat) (memory : Memory)
      → Shows
          (Is log list)
          (λ a. Is (read_metadata d (proven a) ∷ log) list)
          (capture sys failure d found memory)
  unfolding capture
  capture-Shows {log = log} {list = list} failure d found memory =
      >>=-Shows
        (look-Shows (λ captured. read_metadata d captured)
          (capture_posix_metadata sys.xattrs d found memory))
        λ captured.
          weaken-Shows (or_unproven-Shows failure captured)
            λ a s h. subst (λ x. Is (read_metadata d x ∷ log) list s) h.0 h.1

  unchanged_target-Shows :
      {log : List Event}
      → (t : ℕ) (seen : Stat) (metadata : yaca.Metadata.State) (memory : Memory)
      → Shows (Is log []) (λ a. More log) (unchanged_target sys t seen metadata memory)
  unfolding unchanged_target
  unchanged_target-Shows t seen metadata memory =
      >>=-Shows (observe-Shows sys.system (handle_at t)) λ answer.
        >>=-Shows (or_fail-Shows target_changed answer) λ current. fact-Shows λ e.
          >>-Shows (require-Shows (same_stat_observation seen current) target_changed) λ a.
            fact-Shows λ f. >>=-Shows (capture-Shows target_changed t current memory) λ state.
              weaken-Shows
                (require-Shows (posix_metadata_states_equal metadata state) target_changed)
                λ a s h. (read_metadata t (proven state) ∷ saw (handle_at t) answer ∷ [], h.1)

  take_ownership-Shows :
      {log : List Event}
      → {list : List Deed} → (c : ℕ) (seen target_seen : Stat)
      → Shows (Is log list) (λ a. Is log list) (take_ownership sys c seen target_seen)
  unfolding take_ownership
  take_ownership-Shows c seen target_seen =
      if-Shows (not (seen.uid == target_seen.uid) || not (seen.gid == target_seen.gid))
        (λ differs.
          >>=-Shows (nothing-Shows (sys.chown c target_seen.uid target_seen.gid))
            λ answer. or_errno-Shows answer)
        λ equal. pure-Shows true λ s p. p

  copy_metadata-Shows :
      {log : List Event}
      → (c t : ℕ) (seen target_seen : Stat) (metadata : yaca.Metadata.State)
      → Shows (Is log []) (λ a. More log) (copy_metadata sys r c t seen target_seen metadata)
  unfolding copy_metadata
  copy_metadata-Shows {log = log} c t seen target_seen metadata =
      let e = metadata_preservation_unsupported in
      >>-Shows (take_ownership-Shows c seen target_seen) λ a.
        >>=-Shows (nothing-Shows (sys.chmod c target_seen.permissions)) λ answer.
          >>-Shows (or_errno-Shows answer) λ a.
            >>-Shows (unchanged_target-Shows t target_seen metadata (r.memory 1)) λ a.
              given-Shows λ extra. >>=-Shows (observe-Shows sys.system (handle_at c)) λ answer.
                >>=-Shows (or_fail-Shows e answer) λ current. fact-Shows λ h.
                  >>=-Shows (capture-Shows e c current (r.memory 2)) λ state.
                    >>-Shows (require-Shows (state.filesystem_flags == metadata.filesystem_flags) e)
                      λ a. fact-Shows λ f.
                        >>=-Shows
                          (nothing-Shows (
                            synchronize_descriptor_xattrs sys.xattrs c state.xattrs
                              metadata.xattrs))
                          λ answer. >>-Shows (or_errno-Shows answer) λ a.
                            >>=-Shows (nothing-Shows (sys.system.fsync c)) λ answer.
                              weaken-Shows (or_errno-Shows answer) λ a s p. (
                                read_metadata c (proven state)
                                    ∷ saw (handle_at c) (ok current)
                                    ∷ extra,
                                subst
                                    (λ x.
                                      Is
                                        (read_metadata c (proven state)
                                            ∷ saw (handle_at c) x
                                            ∷ extra
                                          ++ log)
                                        [] s)
                                    h p,
                              )

  pub prepare-Shows :
      {log : List Event}
      → (c t : ℕ) (seen target_seen : Stat) (metadata : yaca.Metadata.State)
      → Shows
          (Is log [])
          (λ current s.
            (x : Prepared r metadata) × Is
              (read_metadata c (proven x.state) ∷ saw (handle_at c) (ok current) ∷ (x.extra ++ log))
              []
              s)
          (prepare sys r c t seen target_seen metadata)
  unfolding prepare
  prepare-Shows {log = log} c t seen target_seen metadata =
      let e = metadata_preservation_unsupported in
      >>-Shows (copy_metadata-Shows c t seen target_seen metadata) λ a. given-Shows λ first.
        >>-Shows (unchanged_target-Shows t target_seen metadata (r.memory 3)) λ a.
          given-Shows λ extra. >>=-Shows (observe-Shows sys.system (handle_at c)) λ answer.
            >>=-Shows (or_fail-Shows e answer) λ current. fact-Shows λ h.
              >>=-Shows (capture-Shows e c current (r.memory 4)) λ state.
                >>-Shows (require-Shows (posix_metadata_states_equal metadata state) e) λ a.
                  fact-Shows λ copied.
                    >>-Shows (require-Shows (has_behavior r.expected_behavior state) e) λ a.
                      fact-Shows λ behaves. pure-Shows current λ s p. (
                        record {
                          state = state;
                          extra = extra ++ first;
                          copied = copied;
                          behaves = behaves;
                        },
                        subst
                            (λ x.
                              Is
                                (read_metadata c (proven state)
                                  ∷ saw (handle_at c) (ok current)
                                  ∷ x)
                                [] s)
                            (sym (append_assoc extra first log))
                            (subst
                              (λ x.
                                Is
                                  (read_metadata c (proven state)
                                    ∷ saw (handle_at c) x
                                    ∷ (extra ++ (first ++ log)))
                                  [] s)
                              h p),
                      )
