-- ===== src/Direct/Delete/Proof.antt =====
-- What a deletion has done, by how it ended.
use yaca.Base.{ℕ, ◌+◌, Bool, true, false, Option, none, some, List, [], ◌∷◌, ◌≡◌, refl, Bytes, ◌==◌}
use yaca.Base.Result.{Result, ok, err}
use yaca.Process.State.{errno_code}
use yaca.Paths.{split, posix_parent_and_name}
use yaca.Direct.Facts.{
  Stat, same_posix_published_facts, same_posix_object, is_regular, is_directory,
}
use yaca.Direct.System.{
  directory_of, entry_at, entry_of, handle_at, System, Slots, Failure, unknown, target_changed,
  invalid_target_type, system, temporary_conflict, Deed, renamed, unlinked, is_absent, is_none,
  rename_failure, enoent,
}
use yaca.Direct.Rules.{
  Stage, Leads, Fails, untouched, put_back, Stage→unknown, Undone→Fails, changes, opens, closes,
  in_slots, >>=-Leads, >>-Leads, with_fact, pure-Leads, fail-Leads, if-Leads, observe-Leads,
  require-Leads, or_fail-Leads, parts-Leads, change_nothing-Leads, weaken,
}
use yaca.Direct.Rules.Calls.{
  Matches, verify-Leads, Changed, rename-Leads, unlink-Leads, SecondFree, BothFree,
  open_first-Leads, open_second-Leads, require_only, restore-Leads,
}
use yaca.Direct.Rules.Closing.{Promised, close_slots-Promised}
use yaca.Direct.Delete.{
  DeleteRequest, or_system, removal_flag, free_name, isolated, agrees, is_nameless, undo_isolation,
  confirm_removal, removed_or, remove, confirm_isolation, isolate, unchanged, delete_in,
  delete_body, start, posix_delete_recovery_name, l_fs_delete_direct_verified,
}

-- The handle that was opened on the expected entry tells that the object has no name any more.
pub record Gone (r : DeleteRequest) : Type 0 where
  pub seen : Stat
  pub expected : Matches r.target seen
  pub handle : Result ℕ Stat
  pub gone : is_nameless seen handle ≡ true

-- The entry of the request was moved to its recovery name and unlinked there.
pub record Deleted (r : DeleteRequest) (list : List Deed) : Type 0 where
  pub path : Bytes × Bytes
  pub parent : ℕ
  pub recovery_name : Bytes
  pub named : posix_parent_and_name r.path_memory r.path ≡ split path.0 path.1
  pub recovery : posix_delete_recovery_name r.name_memory path.1 ≡ ok recovery_name
  pub both : list ≡ unlinked parent recovery_name ∷ renamed parent path.1 parent recovery_name ∷ []

module _ (w : ℕ → ℕ) {W : Type 0} (sys : System W) (r : DeleteRequest) where
  or_system-Leads :
      {A : Type 0}
      → (P : Slots → List Deed → Type 0) (answer : Result ℕ A) → Fails w P
      → Leads w {W = W} P (λ a slots trace. (answer ≡ ok a) × P slots trace) (or_system answer)
  unfolding or_system
  or_system-Leads P (ok a) fails = pure-Leads w a λ slots trace p. (refl, p)
  or_system-Leads P (err error) fails =
      fail-Leads w (system (errno_code error)) (fails (system (errno_code error)))

  removal_flag-Leads :
      (P : Slots → List Deed → Type 0) (seen : Stat)
      → Fails w P
      → Leads w {W = W} P (λ a. P) (removal_flag seen)
  unfolding removal_flag
  removal_flag-Leads P seen fails =
      if-Leads w (is_regular seen)
        (λ e.
          if-Leads w (seen.links == 1) (λ e. pure-Leads w false λ slots trace p. p)
            λ e. fail-Leads w target_changed (fails target_changed))
        λ e.
          if-Leads w (is_directory seen) (λ e. pure-Leads w true λ slots trace p. p)
            λ e. fail-Leads w invalid_target_type (fails invalid_target_type)

  free_name-Leads :
      (P : Slots → List Deed → Type 0) (answer : Result ℕ Stat)
      → Fails w P
      → Leads w {W = W} P (λ a. P) (free_name answer)
  unfolding free_name
  free_name-Leads P (ok found) fails = fail-Leads w temporary_conflict (fails temporary_conflict)
  free_name-Leads P (err error) fails =
      require_only w (error == enoent) (system (errno_code error)) (fails _)

  isolated-Leads :
      (deed : Deed) (answer : Option ℕ)
      → Leads w {W = W} (Changed w deed [] answer) (λ a. Stage w (deed ∷ [])) (isolated answer)
  unfolding isolated
  isolated-Leads deed none = pure-Leads w true λ slots trace p. p
  isolated-Leads deed (some error) =
      fail-Leads w (rename_failure error) (Undone→Fails w [] untouched (rename_failure error))

  module _ (p : ℕ) (n m : Bytes) where
    abbrev away : List Deed
    away = renamed p n p m ∷ []

    abbrev deleted : List Deed
    deleted = unlinked p m ∷ away

    undo_isolation-Leads :
        (Q : Bool → Slots → List Deed → Type 0) (same : Stat → Bool) (failure : Failure)
        → Leads w (Stage w away) Q (undo_isolation sys p n m same failure)
    unfolding undo_isolation
    undo_isolation-Leads Q same failure =
        let undone = renamed p m p n ∷ away in
        >>-Leads w (restore-Leads w sys p n p m same away) λ a.
          >>=-Leads w (change_nothing-Leads w (sys.fsync p)) λ flushed.
            >>-Leads w (require_only w (is_none flushed) unknown (Stage→unknown w undone))
              λ a. fail-Leads w failure (Undone→Fails w undone (put_back p n p m) failure)

    abbrev Done : Bool → Slots → List Deed → Type 0
    Done a slots trace = Gone r × Stage w deleted slots trace

    confirm_removal-Leads :
        (target : ℕ) (seen : Stat)
        → Matches r.target seen
        → Leads w (Stage w deleted) Done (confirm_removal sys p n m target seen)
    unfolding confirm_removal
    confirm_removal-Leads target seen v =
        let lost = Stage→unknown w deleted in
        >>=-Leads w (observe-Leads w sys (entry_at p n)) λ at_name.
          >>-Leads w (require_only w (is_absent at_name) unknown lost) λ a.
            >>=-Leads w (observe-Leads w sys (entry_at p m)) λ at_recovery.
              >>-Leads w (require_only w (is_absent at_recovery) unknown lost) λ a.
                >>=-Leads w (observe-Leads w sys (handle_at target)) λ handle.
                  weaken w (require-Leads w (is_nameless seen handle) unknown lost)
                    λ a slots trace h.
                      (record { seen = seen; expected = v; handle = handle; gone = h.0 }, h.1)

    removed_or-Leads :
        (target : ℕ) (seen moved : Stat) (answer : Option ℕ)
        → Matches r.target seen
        → Leads w
            (Changed w (unlinked p m) away answer)
            Done
            (removed_or sys p n m target seen moved answer)
    unfolding removed_or
    removed_or-Leads target seen moved none v = confirm_removal-Leads target seen v
    removed_or-Leads target seen moved (some error) v =
        undo_isolation-Leads Done (same_posix_published_facts moved) (system (errno_code error))

    confirm_isolation-Leads :
        (target : ℕ) (directory : Bool) (seen : Stat)
        → Matches r.target seen
        → Leads w (Stage w away) Done (confirm_isolation sys p n m target directory seen)
    unfolding confirm_isolation remove
    confirm_isolation-Leads target directory seen v =
        let lost = Stage→unknown w away in
        >>=-Leads w (observe-Leads w sys (entry_at p m)) λ at_recovery.
          >>=-Leads w (observe-Leads w sys (entry_at p n)) λ at_name.
            >>=-Leads w (or_fail-Leads w unknown at_recovery lost) λ moved. with_fact w λ e.
              >>-Leads w (require_only w (is_absent at_name) unknown lost) λ a.
                >>=-Leads w (observe-Leads w sys (handle_at target)) λ handle.
                  if-Leads w (agrees seen moved handle)
                    (λ same.
                      >>=-Leads w (unlink-Leads w away (sys.unlink p m directory) p m)
                        λ answer. removed_or-Leads target seen moved answer v)
                    λ differs. undo_isolation-Leads Done (same_posix_object moved) target_changed

  -- Both changes, and that the object is gone.
  abbrev Concluded : Bool → List Deed → Type 0
  Concluded a list = Gone r × Deleted r list

  abbrev Held : Bool → Slots → List Deed → Type 0
  Held a slots trace =
      Concluded a (changes trace) × (opens w trace ≡ closes w trace + in_slots w slots)

  module _ (path : Bytes × Bytes)
      (named : posix_parent_and_name r.path_memory r.path ≡ split path.0 path.1) where
    isolate-Leads :
        (p target : ℕ) (directory : Bool) (seen : Stat)
        → Matches r.target seen
        → Leads w (Stage w []) Held (isolate sys r p path.1 target directory seen)
    unfolding isolate
    isolate-Leads p target directory seen v =
        let n = path.1 in
        let fails = Undone→Fails w [] untouched in
        >>=-Leads w
          (or_system-Leads (Stage w []) (posix_delete_recovery_name r.name_memory n) fails)
          λ m. with_fact w λ recovery. >>=-Leads w (observe-Leads w sys (entry_at p m)) λ occupied.
            >>-Leads w (free_name-Leads (Stage w []) occupied fails) λ a.
              >>=-Leads w (rename-Leads w [] (sys.rename_no_replace p n p m) p n p m) λ answer.
                >>-Leads w (isolated-Leads (renamed p n p m) answer) λ a.
                  weaken w (confirm_isolation-Leads p n m target directory seen v)
                    λ a slots trace h. (
                      (
                        h.0,
                        record {
                          path = path;
                          parent = p;
                          recovery_name = m;
                          named = named;
                          recovery = recovery;
                          both = h.1.listed;
                        },
                      ),
                      h.1.balanced,
                    )

    delete_in-Leads : (p : ℕ) → Leads w (SecondFree w []) Held (delete_in sys r p path.1)
    unfolding delete_in
    delete_in-Leads p =
        let n = path.1 in
        let fails = Undone→Fails w [] untouched in
        let free_fails : Fails w (SecondFree w []) = λ e slots trace h. fails e slots trace h.1.1 in
        >>=-Leads w (observe-Leads w sys (handle_at p)) λ answer.
          >>-Leads w (verify-Leads w r.parent answer free_fails) λ a. with_fact w λ e.
            >>=-Leads w (observe-Leads w sys (entry_at p n)) λ answer.
              >>=-Leads w (verify-Leads w r.target answer free_fails) λ seen.
                with_fact w λ expected.
                  >>=-Leads w (removal_flag-Leads (SecondFree w []) seen free_fails) λ directory.
                    >>=-Leads w
                      (weaken w (open_second-Leads w [] (entry_of p n) (sys.open_entry p n))
                        (λ a slots trace h. h.1))
                      λ opened.
                        >>=-Leads w (or_fail-Leads w target_changed opened (fails target_changed))
                          λ target. with_fact w λ e.
                            >>=-Leads w (observe-Leads w sys (handle_at target)) λ handle.
                              >>-Leads w
                                (require_only w (unchanged sys seen handle) target_changed
                                  (fails target_changed))
                                λ a. isolate-Leads p target directory seen expected

  delete_body-Leads : Leads w (BothFree w []) Held (delete_body sys r)
  unfolding delete_body
  delete_body-Leads =
      let fails = Undone→Fails w [] untouched in
      >>=-Leads w
        (parts-Leads w (posix_parent_and_name r.path_memory r.path)
          λ e slots trace h. fails e slots trace h.1.1.1)
        λ path. with_fact w λ named.
          >>=-Leads w (open_first-Leads w [] (directory_of path.0) (sys.open_directory path.0))
            λ opened.
              >>=-Leads w
                (or_system-Leads (SecondFree w []) opened
                  λ e slots trace h. fails e slots trace h.1.1)
                λ p. with_fact w λ e. delete_in-Leads path named p

-- A deletion, whatever the system answers: every descriptor that it opened is closed. If it
-- succeeds, it has moved the entry of the path to its recovery name and unlinked it there and
-- changed nothing else, the entry was what the caller expected, and its handle then tells the same
-- object with no name left. If it fails with another code than Unknown, it has changed nothing, or
-- has taken back the one change that it had made.
pub l_fs_delete_direct_verified-Promised :
    {W : Type 0}
    → (w : ℕ → ℕ) (sys : System W) (r : DeleteRequest) (world : W)
    → Promised w (λ a list. Gone r × Deleted r list) (l_fs_delete_direct_verified sys r world)
unfolding l_fs_delete_direct_verified
l_fs_delete_direct_verified-Promised w sys r world =
    close_slots-Promised w sys (Concluded w sys r) (delete_body sys r (start sys world)) (
      (delete_body-Leads w sys r).at (start sys world)
        (refl, (refl, (refl, record { balanced = refl; listed = refl }))))
