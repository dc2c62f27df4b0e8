-- ===== src/Direct/Rename/Evidence.antt =====
-- What the log of a rename shows.
use yaca.Base.{
  ℕ, true, Option, none, some, List, [], ◌∷◌, ◌≡◌, inl, inr, refl, ap, subst, arith, Bytes, ◌==◌,
}
use yaca.Base.Result.{Result, ok, err}
use yaca.Process.State.{errno_code}
use yaca.Paths.{split, posix_parent_and_name}
use yaca.Direct.Facts.{Stat, Identity, identity_from_stat, same_posix_published_facts}
use yaca.Direct.System.{
  System, State, unknown, target_changed, invalid_target_type, system, destination_exists, Deed,
  renamed, is_absent, rename_failure, enoent, Event, tried, saw, did, handle_at, entry_at,
  directory_of,
}
use yaca.Direct.Rules.{changes}
use yaca.Direct.Rules.Calls.{Matches}
use yaca.Direct.Evidence.{
  Occurs, Cut, Shows, weaken-Shows, any-Shows, pure-Shows, fail-Shows, if-Shows, fact-Shows,
  or_fail-Shows, >>=-Shows, >>-Shows, Is, require-Shows, parts-Shows, verify-Shows, observe-Shows,
  change-Shows, IsChange, after, open_first-Shows, open_second-Shows, Proven, close_slots-Proven,
}
use yaca.Direct.Rename.{
  RenameRequest, is_movable, missing, done_or, receipt, undo_rename, confirm_rename, rename_between,
  rename_body, start, l_fs_rename_no_replace_verified,
}
use yaca.Direct.Rename.Proof.{Receipt, Renamed, l_fs_rename_no_replace_verified-Promised}

pub renamed-IsChange : (p : ℕ) (n : Bytes) (q : ℕ) (m : Bytes) → IsChange (renamed p n q m)
renamed-IsChange p n q m = record { counts = λ trace. refl }

-- The directories of both paths are open and what the caller expects; before the rename the entry
-- was seen as the caller expects; behind it the target's name shows an entry with the facts of the
-- one before, whose identity is returned, and the source's name is absent.
pub record Moved (r : RenameRequest) (identity : Identity) (log : List Event) (list : List Deed)
    : Type 0 where
  pub source : Bytes × Bytes
  pub target : Bytes × Bytes
  pub source_parent : ℕ
  pub target_parent : ℕ
  pub source_named : posix_parent_and_name r.source_memory r.source_path ≡ split source.0 source.1
  pub target_named : posix_parent_and_name r.target_memory r.target_path ≡ split target.0 target.1
  pub once : list ≡ renamed source_parent source.1 target_parent target.1 ∷ []
  pub cut : Cut (did (renamed source_parent source.1 target_parent target.1) none) log
  pub source_opened : Occurs (tried (directory_of source.0) (ok source_parent)) cut.earlier
  pub target_opened : Occurs (tried (directory_of target.0) (ok target_parent)) cut.earlier
  pub source_stat : Stat
  pub source_seen : Occurs (saw (handle_at source_parent) (ok source_stat)) cut.earlier
  pub source_matches : Matches r.source_parent source_stat
  pub target_stat : Stat
  pub target_seen : Occurs (saw (handle_at target_parent) (ok target_stat)) cut.earlier
  pub target_matches : Matches r.target_parent target_stat
  pub before : Stat
  pub entry_seen : Occurs (saw (entry_at source_parent source.1) (ok before)) cut.earlier
  pub entry_matches : Matches r.source before
  pub movable : is_movable before ≡ true
  pub target_free : Occurs (saw (entry_at target_parent target.1) (err enoent)) cut.earlier
  pub moved : Stat
  pub moved_seen : Occurs (saw (entry_at target_parent target.1) (ok moved)) cut.later
  pub source_gone : Occurs (saw (entry_at source_parent source.1) (err enoent)) cut.later
  pub same : same_posix_published_facts before moved ≡ true
  pub shown : identity_from_stat moved ≡ some identity

pub is_absent-err : (answer : Result ℕ Stat) → is_absent answer ≡ true → answer ≡ err enoent
is_absent-err (ok found) h = grind (arith, h)
is_absent-err (err error) h = ap (λ e. err e) (ground (arith, h))

module _ {W : Type 0} where
  missing-Shows :
      {P : State W → Type 0}
      → (answer : Result ℕ Stat) → Shows P (λ a s. (answer ≡ err enoent) × P s) (missing answer)
  unfolding missing
  missing-Shows (ok found) = fail-Shows destination_exists
  missing-Shows (err error) =
      weaken-Shows (require-Shows (error == enoent) (system (errno_code error)))
        λ a s h. (ap (λ e. err e) (ground (arith, h.0)), h.1)

  pub done_or-Shows :
      (P : Option ℕ → State W → Type 0) (answer : Option ℕ)
      → Shows (P answer) (λ a. P none) (done_or answer)
  unfolding done_or
  done_or-Shows P none = pure-Shows true λ s p. p
  done_or-Shows P (some error) = fail-Shows (rename_failure error)

  pub receipt-Shows :
      {P : State W → Type 0}
      → (identity : Option Identity) → Shows P (λ a s. (identity ≡ some a) × P s) (receipt identity)
  unfolding receipt
  receipt-Shows none = fail-Shows unknown
  receipt-Shows (some identity) = pure-Shows identity λ s p. (refl, p)

-- What is seen behind the rename.
record Confirmed (p : ℕ) (n : Bytes) (q : ℕ) (m : Bytes) (before : Stat) (log : List Event)
    (list : List Deed) {W : Type 0} (identity : Identity) (s : State W) : Type 0 where
  moved : Stat
  same : same_posix_published_facts before moved ≡ true
  shown : identity_from_stat moved ≡ some identity
  is : Is (saw (entry_at p n) (err enoent) ∷ saw (entry_at q m) (ok moved) ∷ log) list s

module _ {W : Type 0} (sys : System W) (r : RenameRequest) where
  module _ (p : ℕ) (n : Bytes) (q : ℕ) (m : Bytes) where
    undo_rename-Shows :
        {P : State W → Type 0}
        → {Q : Identity → State W → Type 0} → (moved : Stat)
        → Shows P Q (undo_rename sys p n q m moved)
    unfolding undo_rename
    undo_rename-Shows moved = >>-Shows (any-Shows _) λ a. fail-Shows target_changed

    confirm_rename-Shows :
        {log : List Event} {list : List Deed}
        → (before : Stat)
        → Shows
            (Is log list)
            (Confirmed p n q m before log list)
            (confirm_rename sys p n q m before)
    unfolding confirm_rename
    confirm_rename-Shows {log = log} {list = list} before =
        >>=-Shows (observe-Shows sys (entry_at q m)) λ at_target.
          >>=-Shows (observe-Shows sys (entry_at p n)) λ at_source.
            >>=-Shows (or_fail-Shows unknown at_target) λ moved. fact-Shows λ e.
              >>-Shows (require-Shows (is_absent at_source) unknown) λ a. fact-Shows λ f.
                if-Shows (same_posix_published_facts before moved)
                  (λ same. weaken-Shows (receipt-Shows (identity_from_stat moved)) λ identity s h.
                    record {
                      moved = moved;
                      same = same;
                      shown = h.0;
                      is =
                          subst
                            (λ x.
                              Is (saw (entry_at p n) x ∷ saw (entry_at q m) (ok moved) ∷ log) list
                                s)
                            (is_absent-err at_source f)
                            (subst
                              (λ x.
                                Is (saw (entry_at p n) at_source ∷ saw (entry_at q m) x ∷ log) list
                                  s)
                              e h.1);
                    })
                  λ differs. undo_rename-Shows moved

  Conclusion : Identity → State W → Type 0
  Conclusion identity s = Moved r identity s.log (changes s.trace)

  module _ (source target : Bytes × Bytes) (p q : ℕ) (a b : Result ℕ ℕ)
      (source_named : posix_parent_and_name r.source_memory r.source_path ≡ split source.0 source.1)
      (target_named : posix_parent_and_name r.target_memory r.target_path ≡ split target.0 target.1)
      (source_opened : a ≡ ok p) (target_opened : b ≡ ok q) where
    abbrev opening : List Event
    opening = tried (directory_of target.0) b ∷ tried (directory_of source.0) a ∷ []

    rename_between-Shows :
        Shows (Is opening []) Conclusion (rename_between sys r p source.1 q target.1)
    unfolding rename_between Conclusion
    rename_between-Shows =
        let n = source.1 in
        let m = target.1 in
        >>=-Shows (observe-Shows sys (handle_at p)) λ a1.
          >>-Shows (verify-Shows r.source_parent a1) λ source_stat. fact-Shows λ e1.
            >>=-Shows (observe-Shows sys (handle_at q)) λ a2.
              >>-Shows (verify-Shows r.target_parent a2) λ target_stat. fact-Shows λ e2.
                >>=-Shows (observe-Shows sys (entry_at p n)) λ a3.
                  >>=-Shows (verify-Shows r.source a3) λ before. fact-Shows λ e3.
                    >>=-Shows (observe-Shows sys (entry_at q m)) λ a4.
                      >>-Shows (missing-Shows a4) λ a. fact-Shows λ e4.
                        >>-Shows (require-Shows (is_movable before) invalid_target_type) λ a.
                          fact-Shows λ movable.
                            >>=-Shows
                              (change-Shows (renamed p n q m) (sys.rename_no_replace p n q m)
                                (renamed-IsChange p n q m))
                              λ answer.
                                >>-Shows
                                  (done_or-Shows
                                    (λ x.
                                      Is (did (renamed p n q m) x ∷ _)
                                        (after (renamed p n q m) x []))
                                    answer)
                                  λ a.
                                    weaken-Shows (confirm_rename-Shows p n q m before)
                                      λ identity s h.
                                        let earlier =
                                          saw (entry_at q m) a4
                                          ∷ saw (entry_at p n) a3
                                          ∷ saw (handle_at q) a2
                                          ∷ saw (handle_at p) a1
                                          ∷ opening in
                                        record {
                                          source = source;
                                          target = target;
                                          source_parent = p;
                                          target_parent = q;
                                          source_named = source_named;
                                          target_named = target_named;
                                          once = h.is.listed;
                                          cut = record {
                                            later =
                                                saw (entry_at p n) (err enoent)
                                                ∷ saw (entry_at q m) (ok h.moved)
                                                ∷ [];
                                            earlier = earlier;
                                            whole = h.is.events;
                                          };
                                          source_opened =
                                              subst
                                                (λ x.
                                                  Occurs (tried (directory_of source.0) x) earlier)
                                                source_opened
                                                (inr (inr (inr (inr (inr (inl refl))))));
                                          target_opened =
                                              subst
                                                (λ x.
                                                  Occurs (tried (directory_of target.0) x) earlier)
                                                target_opened (inr (inr (inr (inr (inl refl)))));
                                          source_stat = source_stat;
                                          source_seen =
                                              subst (λ x. Occurs (saw (handle_at p) x) earlier) e1.0
                                                (inr (inr (inr (inl refl))));
                                          source_matches = e1.1;
                                          target_stat = target_stat;
                                          target_seen =
                                              subst (λ x. Occurs (saw (handle_at q) x) earlier) e2.0
                                                (inr (inr (inl refl)));
                                          target_matches = e2.1;
                                          before = before;
                                          entry_seen =
                                              subst (λ x. Occurs (saw (entry_at p n) x) earlier)
                                                e3.0 (inr (inl refl));
                                          entry_matches = e3.1;
                                          movable = movable;
                                          target_free =
                                              subst (λ x. Occurs (saw (entry_at q m) x) earlier) e4
                                                (inl refl);
                                          moved = h.moved;
                                          moved_seen = inr (inl refl);
                                          source_gone = inl refl;
                                          same = h.same;
                                          shown = h.shown;
                                        }

  rename_body-Shows : Shows (Is [] []) Conclusion (rename_body sys r)
  unfolding rename_body
  rename_body-Shows =
      >>=-Shows (parts-Shows (posix_parent_and_name r.source_memory r.source_path)) λ source.
        fact-Shows λ e.
          >>=-Shows (parts-Shows (posix_parent_and_name r.target_memory r.target_path)) λ target.
            fact-Shows λ f.
              >>=-Shows (open_first-Shows (directory_of source.0) (sys.open_directory source.0))
                λ a.
                  >>=-Shows
                    (open_second-Shows (directory_of target.0) (sys.open_directory target.0))
                    λ b. >>=-Shows (or_fail-Shows target_changed a) λ p. fact-Shows λ h.
                      >>=-Shows (or_fail-Shows target_changed b)
                        λ q. fact-Shows λ k. rename_between-Shows source target p q a b e f h k

-- A rename, whatever the system answers: every descriptor that it opened is closed. If it returns
-- an identity, its log shows that it opened the directories of both paths and saw that they are what
-- the caller expects; that it saw under the source's name in the source's directory the entry that
-- the caller expects, a file with one name or a directory, and nothing under the target's name; then
-- it moved this entry between these names of these directories, which is its one change; and behind
-- it saw nothing under the source's name and under the target's name an entry with the facts of the
-- one before, whose identity it returns. If it fails with another code than Unknown, it has changed
-- nothing, or has taken back the one change that it had made.
pub l_fs_rename_no_replace_verified-Proven :
    {W : Type 0}
    → (w : ℕ → ℕ) (sys : System W) (r : RenameRequest) (world : W)
    → Proven w (Moved r) (l_fs_rename_no_replace_verified sys r world)
unfolding l_fs_rename_no_replace_verified Conclusion
l_fs_rename_no_replace_verified-Proven w sys r world =
    let ended = rename_body sys r (start sys world) in
    close_slots-Proven w sys (λ identity list. Receipt r identity × Renamed r list) (Moved r)
      ended.0 ended.1 (l_fs_rename_no_replace_verified-Promised w sys r world)
      ((rename_body-Shows sys r).at (start sys world) (record { events = refl; listed = refl }))
