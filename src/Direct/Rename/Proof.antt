-- ===== src/Direct/Rename/Proof.antt =====
-- What a rename has done, by how it ended.
use yaca.Base.{ℕ, ◌+◌, true, Option, none, some, List, [], ◌∷◌, ◌≡◌, refl, Bytes, ◌==◌}
use yaca.Base.Result.{Result, ok, err}
use yaca.Process.State.{errno_code}
use yaca.Paths.{split, posix_parent_and_name}
use yaca.Direct.Facts.{
  Stat, Identity, identity_from_stat, same_posix_published_facts, same_posix_object,
}
use yaca.Direct.System.{
  directory_of, entry_at, handle_at, System, Slots, unknown, target_changed, invalid_target_type,
  system, destination_exists, Deed, renamed, is_absent, rename_failure, enoent,
}
use yaca.Direct.Rules.{
  Stage, Leads, Fails, Undone, untouched, put_back, Stage→unknown, Undone→Fails, changes, opens,
  closes, in_slots, >>=-Leads, >>-Leads, with_fact, pure-Leads, fail-Leads, if-Leads, observe-Leads,
  require-Leads, or_fail-Leads, parts-Leads, weaken,
}
use yaca.Direct.Rules.Closing.{Promised, close_slots-Promised}
use yaca.Direct.Rules.Calls.{
  Matches, verify-Leads, Changed, rename-Leads, BothFree, open_first-Leads, open_second-Leads,
  require_only, restore-Leads,
}
use yaca.Direct.Rename.{
  RenameRequest, is_movable, missing, done_or, receipt, undo_rename, confirm_rename, rename_between,
  rename_body, start, l_fs_rename_no_replace_verified,
}

-- The entry that was looked at is what stands at the target.
pub record Receipt (r : RenameRequest) (identity : Identity) : Type 0 where
  pub seen : Stat
  pub moved : Stat
  pub expected : Matches r.source seen
  pub movable : is_movable seen ≡ true
  pub same : same_posix_published_facts seen moved ≡ true
  pub shown : identity_from_stat moved ≡ some identity

-- One rename has been done, between the names of the request.
pub record Renamed (r : RenameRequest) (list : List Deed) : Type 0 where
  pub source : Bytes × Bytes
  pub target : Bytes × Bytes
  pub source_parent : ℕ
  pub target_parent : ℕ
  pub source_named : posix_parent_and_name r.source_memory r.source_path ≡ split source.0 source.1
  pub target_named : posix_parent_and_name r.target_memory r.target_path ≡ split target.0 target.1
  pub once : list ≡ renamed source_parent source.1 target_parent target.1 ∷ []

module _ (w : ℕ → ℕ) {W : Type 0} (sys : System W) (r : RenameRequest) where
  missing-Leads :
      (P : Slots → List Deed → Type 0) (answer : Result ℕ Stat)
      → Fails w P
      → Leads w {W = W} P (λ a. P) (missing answer)
  unfolding missing
  missing-Leads P (ok found) fails = fail-Leads w destination_exists (fails destination_exists)
  missing-Leads P (err error) fails =
      require_only w (error == enoent) (system (errno_code error)) (fails _)

  done_or-Leads :
      (deed : Deed) (list : List Deed) (answer : Option ℕ)
      → Undone list
      → Leads w {W = W} (Changed w deed list answer) (λ a. Stage w (deed ∷ list)) (done_or answer)
  unfolding done_or
  done_or-Leads deed list none u = pure-Leads w true λ slots trace p. p
  done_or-Leads deed list (some error) u =
      fail-Leads w (rename_failure error) (Undone→Fails w list u (rename_failure error))

  receipt-Leads :
      (list : List Deed) (seen moved : Stat) (identity : Option Identity)
      → Matches r.source seen
      → is_movable seen ≡ true
      → same_posix_published_facts seen moved ≡ true
      → identity_from_stat moved ≡ identity
      → Leads w {W = W}
          (Stage w list)
          (λ a slots trace. Receipt r a × Stage w list slots trace)
          (receipt identity)
  unfolding receipt
  receipt-Leads list seen moved none m v e f = fail-Leads w unknown (Stage→unknown w list)
  receipt-Leads list seen moved (some identity) m v e f = pure-Leads w identity λ slots trace p.
      (record { seen = seen; moved = moved; expected = m; movable = v; same = e; shown = f }, p)

  module _ (p : ℕ) (n : Bytes) (q : ℕ) (m : Bytes) where
    undo_rename-Leads :
        (Q : Identity → Slots → List Deed → Type 0) (moved : Stat)
        → Leads w (Stage w (renamed p n q m ∷ [])) Q (undo_rename sys p n q m moved)
    unfolding undo_rename
    undo_rename-Leads Q moved =
        >>-Leads w (restore-Leads w sys p n q m (same_posix_object moved) (renamed p n q m ∷ []))
          λ a. fail-Leads w target_changed (Undone→Fails w _ (put_back p n q m) target_changed)

    abbrev Done : Identity → Slots → List Deed → Type 0
    Done identity slots trace = Receipt r identity × Stage w (renamed p n q m ∷ []) slots trace

    confirm_rename-Leads :
        (seen : Stat)
        → Matches r.source seen
        → is_movable seen ≡ true
        → Leads w (Stage w (renamed p n q m ∷ [])) Done (confirm_rename sys p n q m seen)
    unfolding confirm_rename
    confirm_rename-Leads seen v movable =
        let lost = Stage→unknown w (renamed p n q m ∷ []) in
        >>=-Leads w (observe-Leads w sys (entry_at q m)) λ at_target.
          >>=-Leads w (observe-Leads w sys (entry_at p n)) λ at_source.
            >>=-Leads w (or_fail-Leads w unknown at_target lost) λ moved. with_fact w λ e.
              >>-Leads w (require-Leads w (is_absent at_source) unknown lost) λ a. with_fact w λ e.
                if-Leads w (same_posix_published_facts seen moved)
                  (λ same.
                    receipt-Leads (renamed p n q m ∷ []) seen moved (identity_from_stat moved) v
                      movable same refl)
                  λ differs. undo_rename-Leads Done moved

    rename_between-Leads : Leads w (Stage w []) Done (rename_between sys r p n q m)
    unfolding rename_between
    rename_between-Leads =
        let fails = Undone→Fails w [] untouched in
        >>=-Leads w (observe-Leads w sys (handle_at p)) λ answer.
          >>-Leads w (verify-Leads w r.source_parent answer fails) λ a. with_fact w λ e.
            >>=-Leads w (observe-Leads w sys (handle_at q)) λ answer.
              >>-Leads w (verify-Leads w r.target_parent answer fails) λ a. with_fact w λ e.
                >>=-Leads w (observe-Leads w sys (entry_at p n)) λ answer.
                  >>=-Leads w (verify-Leads w r.source answer fails) λ seen. with_fact w λ expected.
                    >>=-Leads w (observe-Leads w sys (entry_at q m)) λ answer.
                      >>-Leads w (missing-Leads (Stage w []) answer fails) λ a.
                        >>-Leads w
                          (require-Leads w (is_movable seen) invalid_target_type
                            (fails invalid_target_type))
                          λ a. with_fact w λ movable.
                            >>=-Leads w (rename-Leads w [] (sys.rename_no_replace p n q m) p n q m)
                              λ answer.
                                >>-Leads w (done_or-Leads (renamed p n q m) [] answer untouched)
                                  λ a. confirm_rename-Leads seen expected movable

  -- The receipt, and the one change.
  abbrev Concluded : Identity → List Deed → Type 0
  Concluded identity list = Receipt r identity × Renamed r list

  named :
      (source target : Bytes × Bytes) (p q : ℕ)
      → posix_parent_and_name r.source_memory r.source_path ≡ split source.0 source.1
      → posix_parent_and_name r.target_memory r.target_path ≡ split target.0 target.1
      → Leads w
          (Stage w [])
          (λ a slots trace.
            Concluded a (changes trace) × (opens w trace ≡ closes w trace + in_slots w slots))
          (rename_between sys r p source.1 q target.1)
  named source target p q e f =
      weaken w (rename_between-Leads p source.1 q target.1) λ a slots trace h. (
        (
          h.0,
          record {
            source = source;
            target = target;
            source_parent = p;
            target_parent = q;
            source_named = e;
            target_named = f;
            once = h.1.listed;
          },
        ),
        h.1.balanced,
      )

  rename_body-Leads :
      Leads w
        (BothFree w [])
        (λ a slots trace.
          Concluded a (changes trace) × (opens w trace ≡ closes w trace + in_slots w slots))
        (rename_body sys r)
  unfolding rename_body
  rename_body-Leads =
      let fails = Undone→Fails w [] untouched in
      let free_fails : Fails w (BothFree w []) = λ e slots trace h. fails e slots trace h.1.1.1 in
      >>=-Leads w (parts-Leads w (posix_parent_and_name r.source_memory r.source_path) free_fails)
        λ source. with_fact w λ e.
          >>=-Leads w
            (parts-Leads w (posix_parent_and_name r.target_memory r.target_path) free_fails)
            λ target. with_fact w λ f.
              >>=-Leads w
                (open_first-Leads w [] (directory_of source.0) (sys.open_directory source.0))
                λ source_opened.
                  >>=-Leads w
                    (weaken w
                      (open_second-Leads w [] (directory_of target.0) (sys.open_directory target.0))
                      (λ a slots trace h. h.1))
                    λ target_opened.
                      >>=-Leads w
                        (or_fail-Leads w target_changed source_opened (fails target_changed))
                        λ p. with_fact w λ a.
                          >>=-Leads w
                            (or_fail-Leads w target_changed target_opened (fails target_changed))
                            λ q. with_fact w λ b. named source target p q e f

-- A rename, whatever the system answers: every descriptor that it opened is closed. If it returns
-- an identity, it has done one rename between the names of the two paths and no other change, of an
-- entry that the caller expected, and the entry that it then saw under the target's name has that
-- identity and the facts of the one that it checked before. If it fails with another code than
-- Unknown, it has changed nothing, or has taken back the one change that it had made.
pub l_fs_rename_no_replace_verified-Promised :
    {W : Type 0}
    → (w : ℕ → ℕ) (sys : System W) (r : RenameRequest) (world : W)
    → Promised w
        (λ identity list. Receipt r identity × Renamed r list)
        (l_fs_rename_no_replace_verified sys r world)
unfolding l_fs_rename_no_replace_verified
l_fs_rename_no_replace_verified-Promised w sys r world =
    close_slots-Promised w sys (Concluded w sys r) (rename_body sys r (start sys world)) (
      (rename_body-Leads w sys r).at (start sys world)
        (refl, (refl, (refl, record { balanced = refl; listed = refl }))))
