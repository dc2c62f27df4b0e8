-- ===== src/Direct/Delete/Evidence.antt =====
-- What the log of a deletion shows.
use yaca.Base.{
  ℕ, Bool, true, false, Option, none, some, List, [], ◌∷◌, ◌≡◌, inl, inr, refl, subst, arith, Bytes,
  ◌==◌,
}
use yaca.Base.Result.{Result, ok, err}
use yaca.Process.State.{errno_code}
use yaca.Paths.{split, posix_parent_and_name}
use yaca.Direct.Facts.{
  Stat, same_posix_published_facts, same_posix_object, is_regular, is_directory,
}
use yaca.Direct.System.{
  restore, change_nothing, require, System, State, Failure, unknown, target_changed,
  invalid_target_type, system, temporary_conflict, Deed, renamed, unlinked, is_absent, is_none,
  rename_failure, enoent, Event, tried, saw, did, handle_at, entry_at, directory_of, entry_of,
}
use yaca.Direct.Rules.{changes}
use yaca.Direct.Rules.Calls.{Matches}
use yaca.Direct.Evidence.{
  Occurs, Cut, Shows, weaken-Shows, any-Shows, pure-Shows, fail-Shows, if-Shows, fact-Shows,
  or_fail-Shows, >>=-Shows, >>-Shows, Is, require-Shows, parts-Shows, verify-Shows, observe-Shows,
  change-Shows, IsChange, after, open_first-Shows, open_second-Shows, Proven, close_slots-Proven,
}
use yaca.Direct.Rename.Evidence.{renamed-IsChange, is_absent-err}
use yaca.Direct.Delete.{
  DeleteRequest, or_system, removal_flag, free_name, isolated, agrees, is_nameless, undo_isolation,
  confirm_removal, removed_or, remove, confirm_isolation, isolate, unchanged, delete_in,
  delete_body, start, posix_delete_recovery_name, l_fs_delete_direct_verified,
}
use yaca.Direct.Delete.Proof.{Gone, Deleted, l_fs_delete_direct_verified-Promised}

pub unlinked-IsChange : (p : ℕ) (n : Bytes) → IsChange (unlinked p n)
unlinked-IsChange p n = record { counts = λ trace. refl }

-- The directory of the path is open and what the caller expects, and a handle is open on the entry
-- that the caller expects. Between the two changes, the recovery name shows the same object and the
-- handle agrees; behind them both names are absent and the handle tells the object without a name.
pub record Removed (r : DeleteRequest) (log : List Event) (list : List Deed) : Type 0 where
  pub path : Bytes × Bytes
  pub parent : ℕ
  pub recovery_name : Bytes
  pub target : ℕ
  pub named : posix_parent_and_name r.path_memory r.path ≡ split path.0 path.1
  pub recovery : posix_delete_recovery_name r.name_memory path.1 ≡ ok recovery_name
  pub both : list ≡ unlinked parent recovery_name ∷ renamed parent path.1 parent recovery_name ∷ []
  pub removal : Cut (did (unlinked parent recovery_name) none) log
  pub isolation : Cut (did (renamed parent path.1 parent recovery_name) none) removal.earlier
  pub opened : Occurs (tried (directory_of path.0) (ok parent)) isolation.earlier
  pub parent_stat : Stat
  pub parent_seen : Occurs (saw (handle_at parent) (ok parent_stat)) isolation.earlier
  pub parent_matches : Matches r.parent parent_stat
  pub before : Stat
  pub entry_seen : Occurs (saw (entry_at parent path.1) (ok before)) isolation.earlier
  pub entry_matches : Matches r.target before
  pub handle_opened : Occurs (tried (entry_of parent path.1) (ok target)) isolation.earlier
  pub moved : Stat
  pub moved_seen : Occurs (saw (entry_at parent recovery_name) (ok moved)) isolation.later
  pub name_free : Occurs (saw (entry_at parent path.1) (err enoent)) isolation.later
  pub handle : Stat
  pub handle_seen : Occurs (saw (handle_at target) (ok handle)) isolation.later
  pub same_entry : same_posix_published_facts before moved ≡ true
  pub same_handle : same_posix_published_facts moved handle ≡ true
  pub name_gone : Occurs (saw (entry_at parent path.1) (err enoent)) removal.later
  pub recovery_gone : Occurs (saw (entry_at parent recovery_name) (err enoent)) removal.later
  pub last : Stat
  pub last_seen : Occurs (saw (handle_at target) (ok last)) removal.later
  pub same_object : same_posix_object before last ≡ true
  pub nameless : last.links ≡ 0

agrees-facts :
    (before moved : Stat) (answer : Result ℕ Stat)
    → agrees before moved answer ≡ true
    → (handle : Stat) × (answer ≡ ok handle)
      × (same_posix_published_facts before moved ≡ true)
      × (same_posix_published_facts moved handle ≡ true)
unfolding agrees
agrees-facts before moved (err error) h = grind (arith, h)
agrees-facts before moved (ok handle) h = (handle, refl, ground (arith, h), ground (arith, h))

is_nameless-facts :
    (before : Stat) (answer : Result ℕ Stat)
    → is_nameless before answer ≡ true
    → (last : Stat) × (answer ≡ ok last) × (same_posix_object before last ≡ true) × (last.links ≡ 0)
unfolding is_nameless
is_nameless-facts before (err error) h = grind (arith, h)
is_nameless-facts before (ok last) h = (last, refl, ground (arith, h), ground (arith, h))

module _ {W : Type 0} where
  or_system-Shows :
      {A : Type 0}
      → {P : State W → Type 0} → (answer : Result ℕ A)
      → Shows P (λ a s. (answer ≡ ok a) × P s) (or_system answer)
  unfolding or_system
  or_system-Shows (ok a) = pure-Shows a λ s p. (refl, p)
  or_system-Shows (err error) = fail-Shows (system (errno_code error))

  removal_flag-Shows : {P : State W → Type 0} → (seen : Stat) → Shows P (λ a. P) (removal_flag seen)
  unfolding removal_flag
  removal_flag-Shows seen =
      if-Shows (is_regular seen)
        (λ e.
          if-Shows (seen.links == 1) (λ e. pure-Shows false λ s p. p)
            λ e. fail-Shows target_changed)
        λ e.
          if-Shows (is_directory seen) (λ e. pure-Shows true λ s p. p)
            λ e. fail-Shows invalid_target_type

  free_name-Shows :
      {P : State W → Type 0} → (answer : Result ℕ Stat) → Shows P (λ a. P) (free_name answer)
  unfolding free_name
  free_name-Shows (ok found) = fail-Shows temporary_conflict
  free_name-Shows (err error) =
      weaken-Shows (require-Shows (error == enoent) (system (errno_code error))) λ a s h. h.1

  isolated-Shows :
      (P : Option ℕ → State W → Type 0) (answer : Option ℕ)
      → Shows (P answer) (λ a. P none) (isolated answer)
  unfolding isolated
  isolated-Shows P none = pure-Shows true λ s p. p
  isolated-Shows P (some error) = fail-Shows (rename_failure error)

-- What is seen between the changes and behind them.
record Isolated (p : ℕ) (n m : Bytes) (t : ℕ) (before : Stat) (log : List Event) {W : Type 0}
    (s : State W) : Type 0 where
  moved : Stat
  handle : Stat
  last : Stat
  same_entry : same_posix_published_facts before moved ≡ true
  same_handle : same_posix_published_facts moved handle ≡ true
  same_object : same_posix_object before last ≡ true
  nameless : last.links ≡ 0
  is :
      Is
        (saw (handle_at t) (ok last)
          ∷ saw (entry_at p m) (err enoent)
          ∷ saw (entry_at p n) (err enoent)
          ∷ did (unlinked p m) none
          ∷ saw (handle_at t) (ok handle)
          ∷ saw (entry_at p n) (err enoent)
          ∷ saw (entry_at p m) (ok moved)
          ∷ did (renamed p n p m) none
          ∷ log)
        (unlinked p m ∷ renamed p n p m ∷ [])
        s

module _ {W : Type 0} (sys : System W) (r : DeleteRequest) where
  module _ (p : ℕ) (n m : Bytes) (t : ℕ) where
    undo_isolation-Shows :
        {P : State W → Type 0}
        → {Q : Bool → State W → Type 0} → (same : Stat → Bool) (failure : Failure)
        → Shows P Q (undo_isolation sys p n m same failure)
    unfolding undo_isolation
    undo_isolation-Shows same failure = >>-Shows (any-Shows (restore sys p n p m same)) λ a.
        >>=-Shows (any-Shows (change_nothing (sys.fsync p))) λ flushed.
          >>-Shows (any-Shows (require (is_none flushed) unknown)) λ a. fail-Shows failure

    confirm_removal-Shows :
        {log : List Event} {list : List Deed}
        → (before : Stat)
        → Shows
            (Is log list)
            (λ a s.
              (last : Stat) × (same_posix_object before last ≡ true)
              × (last.links ≡ 0)
              × Is
                  (saw (handle_at t) (ok last)
                    ∷ saw (entry_at p m) (err enoent)
                    ∷ saw (entry_at p n) (err enoent)
                    ∷ log)
                  list
                  s)
            (confirm_removal sys p n m t before)
    unfolding confirm_removal
    confirm_removal-Shows {log = log} {list = list} before =
        >>=-Shows (observe-Shows sys (entry_at p n)) λ at_name.
          >>-Shows (require-Shows (is_absent at_name) unknown) λ a. fact-Shows λ e.
            >>=-Shows (observe-Shows sys (entry_at p m)) λ at_recovery.
              >>-Shows (require-Shows (is_absent at_recovery) unknown) λ a. fact-Shows λ f.
                >>=-Shows (observe-Shows sys (handle_at t)) λ answer.
                  weaken-Shows (require-Shows (is_nameless before answer) unknown) λ a s h.
                    let (last, g, same, nameless) = is_nameless-facts before answer h.0 in
                    (
                      last,
                      same,
                      nameless,
                      subst
                          (λ x.
                            Is
                              (saw (handle_at t) (ok last)
                                ∷ saw (entry_at p m) (err enoent)
                                ∷ saw (entry_at p n) x
                                ∷ log)
                              list s)
                          (is_absent-err at_name e)
                          (subst
                            (λ x.
                              Is
                                (saw (handle_at t) (ok last)
                                  ∷ saw (entry_at p m) x
                                  ∷ saw (entry_at p n) at_name
                                  ∷ log)
                                list s)
                            (is_absent-err at_recovery f)
                            (subst
                              (λ x.
                                Is
                                  (saw (handle_at t) x
                                    ∷ saw (entry_at p m) at_recovery
                                    ∷ saw (entry_at p n) at_name
                                    ∷ log)
                                  list s)
                              g h.1)),
                    )

    removed_or-Shows :
        {log : List Event} {list : List Deed}
        → (before moved : Stat) (answer : Option ℕ)
        → Shows
            (Is (did (unlinked p m) answer ∷ log) (after (unlinked p m) answer list))
            (λ a s.
              (last : Stat) × (same_posix_object before last ≡ true)
              × (last.links ≡ 0)
              × Is
                  (saw (handle_at t) (ok last)
                    ∷ saw (entry_at p m) (err enoent)
                    ∷ saw (entry_at p n) (err enoent)
                    ∷ did (unlinked p m) none
                    ∷ log)
                  (unlinked p m ∷ list)
                  s)
            (removed_or sys p n m t before moved answer)
    unfolding removed_or
    removed_or-Shows before moved none = confirm_removal-Shows before
    removed_or-Shows before moved (some error) =
        undo_isolation-Shows (same_posix_published_facts moved) (system (errno_code error))

    confirm_isolation-Shows :
        {log : List Event}
        → (directory : Bool) (before : Stat)
        → Shows
            (Is (did (renamed p n p m) none ∷ log) (renamed p n p m ∷ []))
            (λ a. Isolated p n m t before log)
            (confirm_isolation sys p n m t directory before)
    unfolding confirm_isolation remove
    confirm_isolation-Shows {log = log} directory before =
        >>=-Shows (observe-Shows sys (entry_at p m)) λ at_recovery.
          >>=-Shows (observe-Shows sys (entry_at p n)) λ at_name.
            >>=-Shows (or_fail-Shows unknown at_recovery) λ moved. fact-Shows λ e.
              >>-Shows (require-Shows (is_absent at_name) unknown) λ a. fact-Shows λ f.
                >>=-Shows (observe-Shows sys (handle_at t)) λ answer.
                  if-Shows (agrees before moved answer)
                    (λ same.
                      let (handle, g, same_entry, same_handle) =
                        agrees-facts before moved answer same in
                      >>=-Shows
                        (change-Shows (unlinked p m) (sys.unlink p m directory)
                          (unlinked-IsChange p m))
                        λ refused. weaken-Shows (removed_or-Shows before moved refused) λ a s h.
                          record {
                            moved = moved;
                            handle = handle;
                            last = h.0;
                            same_entry = same_entry;
                            same_handle = same_handle;
                            same_object = h.1;
                            nameless = h.2;
                            is =
                                let at = λ (x y z : Result ℕ Stat).
                                  Is
                                    (saw (handle_at t) (ok h.0)
                                      ∷ saw (entry_at p m) (err enoent)
                                      ∷ saw (entry_at p n) (err enoent)
                                      ∷ did (unlinked p m) none
                                      ∷ saw (handle_at t) x
                                      ∷ saw (entry_at p n) y
                                      ∷ saw (entry_at p m) z
                                      ∷ did (renamed p n p m) none
                                      ∷ log)
                                    (unlinked p m ∷ renamed p n p m ∷ []) s in
                                subst (λ z. at (ok handle) (err enoent) z) e
                                  (subst (λ y. at (ok handle) y at_recovery)
                                    (is_absent-err at_name f)
                                    (subst (λ x. at x at_name at_recovery) g h.3));
                          })
                    λ differs. undo_isolation-Shows (same_posix_object moved) target_changed

  Conclusion : Bool → State W → Type 0
  Conclusion a s = Removed r s.log (changes s.trace)

  module _ (path : Bytes × Bytes) (p : ℕ) (a : Result ℕ ℕ)
      (named : posix_parent_and_name r.path_memory r.path ≡ split path.0 path.1)
      (opened : a ≡ ok p) where
    abbrev opening : List Event
    opening = tried (directory_of path.0) a ∷ []

    delete_in-Shows : Shows (Is opening []) Conclusion (delete_in sys r p path.1)
    unfolding delete_in isolate Conclusion
    delete_in-Shows =
        let n = path.1 in
        >>=-Shows (observe-Shows sys (handle_at p)) λ b1.
          >>-Shows (verify-Shows r.parent b1) λ parent_stat. fact-Shows λ e1.
            >>=-Shows (observe-Shows sys (entry_at p n)) λ b2.
              >>=-Shows (verify-Shows r.target b2) λ before. fact-Shows λ e2.
                >>=-Shows (removal_flag-Shows before) λ directory.
                  >>=-Shows (open_second-Shows (entry_of p n) (sys.open_entry p n)) λ c.
                    >>=-Shows (or_fail-Shows target_changed c) λ t. fact-Shows λ e3.
                      >>=-Shows (observe-Shows sys (handle_at t)) λ b3.
                        >>-Shows (require-Shows (unchanged sys before b3) target_changed) λ x.
                          fact-Shows λ same.
                            >>=-Shows (or_system-Shows (posix_delete_recovery_name r.name_memory n))
                              λ m. fact-Shows λ recovery.
                                >>=-Shows (observe-Shows sys (entry_at p m)) λ b4.
                                  >>-Shows (free_name-Shows b4) λ x.
                                    >>=-Shows
                                      (change-Shows (renamed p n p m)
                                        (sys.rename_no_replace p n p m) (renamed-IsChange p n p m))
                                      λ answer.
                                        >>-Shows
                                          (isolated-Shows
                                            (λ x.
                                              Is (did (renamed p n p m) x ∷ _)
                                                (after (renamed p n p m) x []))
                                            answer)
                                          λ x.
                                            weaken-Shows
                                              (confirm_isolation-Shows p n m t directory before)
                                              λ x s h.
                                                let early =
                                                  saw (entry_at p m) b4
                                                  ∷ saw (handle_at t) b3
                                                  ∷ tried (entry_of p n) c
                                                  ∷ saw (entry_at p n) b2
                                                  ∷ saw (handle_at p) b1
                                                  ∷ opening in
                                                record {
                                                  path = path;
                                                  parent = p;
                                                  recovery_name = m;
                                                  target = t;
                                                  named = named;
                                                  recovery = recovery;
                                                  both = h.is.listed;
                                                  removal = record {
                                                    later =
                                                        saw (handle_at t) (ok h.last)
                                                        ∷ saw (entry_at p m) (err enoent)
                                                        ∷ saw (entry_at p n) (err enoent)
                                                        ∷ [];
                                                    earlier =
                                                        saw (handle_at t) (ok h.handle)
                                                        ∷ saw (entry_at p n) (err enoent)
                                                        ∷ saw (entry_at p m) (ok h.moved)
                                                        ∷ did (renamed p n p m) none
                                                        ∷ early;
                                                    whole = h.is.events;
                                                  };
                                                  isolation = record {
                                                    later =
                                                        saw (handle_at t) (ok h.handle)
                                                        ∷ saw (entry_at p n) (err enoent)
                                                        ∷ saw (entry_at p m) (ok h.moved)
                                                        ∷ [];
                                                    earlier = early;
                                                    whole = refl;
                                                  };
                                                  opened =
                                                      subst
                                                        (λ x.
                                                          Occurs (tried (directory_of path.0) x)
                                                            early)
                                                        opened
                                                        (inr (inr (inr (inr (inr (inl refl))))));
                                                  parent_stat = parent_stat;
                                                  parent_seen =
                                                      subst
                                                        (λ x. Occurs (saw (handle_at p) x) early)
                                                        e1.0 (inr (inr (inr (inr (inl refl)))));
                                                  parent_matches = e1.1;
                                                  before = before;
                                                  entry_seen =
                                                      subst
                                                        (λ x. Occurs (saw (entry_at p n) x) early)
                                                        e2.0 (inr (inr (inr (inl refl))));
                                                  entry_matches = e2.1;
                                                  handle_opened =
                                                      subst
                                                        (λ x. Occurs (tried (entry_of p n) x) early)
                                                        e3 (inr (inr (inl refl)));
                                                  moved = h.moved;
                                                  moved_seen = inr (inr (inl refl));
                                                  name_free = inr (inl refl);
                                                  handle = h.handle;
                                                  handle_seen = inl refl;
                                                  same_entry = h.same_entry;
                                                  same_handle = h.same_handle;
                                                  name_gone = inr (inr (inl refl));
                                                  recovery_gone = inr (inl refl);
                                                  last = h.last;
                                                  last_seen = inl refl;
                                                  same_object = h.same_object;
                                                  nameless = h.nameless;
                                                }

  delete_body-Shows : Shows (Is [] []) Conclusion (delete_body sys r)
  unfolding delete_body
  delete_body-Shows = >>=-Shows (parts-Shows (posix_parent_and_name r.path_memory r.path)) λ path.
      fact-Shows λ named.
        >>=-Shows (open_first-Shows (directory_of path.0) (sys.open_directory path.0))
          λ a. >>=-Shows (or_system-Shows a) λ p. fact-Shows λ e. delete_in-Shows path p a named e

-- A deletion, whatever the system answers: every descriptor that it opened is closed. If it
-- succeeds, its log shows that it opened the directory of the path and saw that it is what the
-- caller expects, saw under the path's name the entry that the caller expects, and opened a handle
-- on it; then it moved this entry to its recovery name in this directory, saw it there with the same
-- facts, on the handle too, and its old name absent; then it unlinked the recovery name, and behind
-- that saw both names absent and on the handle the same object with no name left. It has changed
-- nothing else. If it fails with another code than Unknown, it has changed nothing, or has taken
-- back the one change that it had made.
pub l_fs_delete_direct_verified-Proven :
    {W : Type 0}
    → (w : ℕ → ℕ) (sys : System W) (r : DeleteRequest) (world : W)
    → Proven w (λ a. Removed r) (l_fs_delete_direct_verified sys r world)
unfolding l_fs_delete_direct_verified Conclusion
l_fs_delete_direct_verified-Proven w sys r world =
    let ended = delete_body sys r (start sys world) in
    close_slots-Proven w sys (λ a list. Gone r × Deleted r list) (λ a. Removed r) ended.0 ended.1
      (l_fs_delete_direct_verified-Promised w sys r world)
      ((delete_body-Shows sys r).at (start sys world) (record { events = refl; listed = refl }))
