-- ===== src/Direct/Replace/Promise.antt =====
-- The whole of a replacement.
use yaca.Base.{ℕ, ◌+◌, true, List, [], ◌≡◌, refl, Bytes, ltb, length}
use yaca.Paths.{split, posix_parent_and_name}
use yaca.Metadata.{same_bytes}
use yaca.Direct.Facts.{Identity}
use yaca.Direct.System.{
  directory_of, entry_of, handle_at, Slots, Deed, target_changed, invalid_target_type,
  invalid_metadata,
}
use yaca.Direct.Rules.{
  Stage, Leads, Fails, untouched, Undone→Fails, changes, opens, closes, in_slots, >>=-Leads,
  >>-Leads, with_fact, observe-Leads, require-Leads, or_fail-Leads, parts-Leads, weaken,
}
use yaca.Direct.Rules.Calls.{
  verify-Leads, SecondFree, BothFree, open_first-Leads, open_second-Leads, open_third-Leads,
  require_only,
}
use yaca.Direct.Rules.Closing.{Promised, close_slots-Promised}
use yaca.Direct.Replace.{
  Replacing, ReplaceRequest, replace_opened, replace_in, replace_body, start, l_fs_replace_verified,
}
use yaca.Direct.Replace.Proof.{Published, Replaced}
use yaca.Direct.Replace.Outcome.{replace_opened-Leads}

module _ (w : ℕ → ℕ) {W : Type 0} (sys : Replacing W) (r : ReplaceRequest) where
  fails : Fails w (Stage w [])
  fails = Undone→Fails w [] untouched

  -- The evidence, and both changes.
  abbrev Concluded : Identity → List Deed → Type 0
  Concluded identity list = Published r identity × Replaced r list

  abbrev Held : Identity → Slots → List Deed → Type 0
  Held identity slots trace =
      Concluded identity (changes trace) × (opens w trace ≡ closes w trace + in_slots w slots)

  module _ (temporary target : Bytes × Bytes)
      (temporary_named : posix_parent_and_name r.temporary_memory r.temporary_path
        ≡ split temporary.0 temporary.1)
      (target_named : posix_parent_and_name r.target_memory r.target_path ≡ split target.0 target.1)
      (one_directory : same_bytes temporary.0 target.0 ≡ true) where
    named :
        (p c t : ℕ) → Leads w (Stage w []) Held (replace_opened sys r p temporary.1 target.1 c t)
    named p c t =
        weaken w (replace_opened-Leads w sys r p temporary.1 target.1 c t) λ a slots trace h. (
          (
            h.0,
            record {
              temporary = temporary;
              target = target;
              parent = p;
              temporary_named = temporary_named;
              target_named = target_named;
              one_directory = one_directory;
              both = h.1.listed;
            },
          ),
          h.1.balanced,
        )

    replace_in-Leads :
        (p : ℕ) → Leads w (SecondFree w []) Held (replace_in sys r p temporary.1 target.1)
    unfolding replace_in
    replace_in-Leads p = >>=-Leads w (observe-Leads w sys.system (handle_at p)) λ answer.
        >>-Leads w
          (verify-Leads w r.target_parent answer λ e slots trace h. fails e slots trace h.1.1)
          λ a. with_fact w λ e.
            >>=-Leads w
              (open_second-Leads w [] (entry_of p temporary.1) (sys.open_candidate p temporary.1))
              λ candidate_opened.
                >>=-Leads w
                  (open_third-Leads w [] (entry_of p target.1) (sys.open_target p target.1))
                  λ target_opened.
                    >>=-Leads w
                      (or_fail-Leads w target_changed candidate_opened (fails target_changed))
                      λ c. with_fact w λ e.
                        >>=-Leads w
                          (or_fail-Leads w target_changed target_opened (fails target_changed))
                          λ t. with_fact w λ e. named p c t

  replace_body-Leads : Leads w (BothFree w []) Held (replace_body sys r)
  unfolding replace_body
  replace_body-Leads =
      let all_fail : Fails w (BothFree w []) = λ e slots trace h. fails e slots trace h.1.1.1 in
      >>-Leads w
        (require_only w (ltb (length r.expected_behavior) 96) invalid_metadata
          (all_fail invalid_metadata))
        λ a.
          >>=-Leads w
            (parts-Leads w (posix_parent_and_name r.temporary_memory r.temporary_path) all_fail)
            λ temporary. with_fact w λ e.
              >>=-Leads w
                (parts-Leads w (posix_parent_and_name r.target_memory r.target_path) all_fail)
                λ target. with_fact w λ f.
                  >>-Leads w
                    (require-Leads w (same_bytes temporary.0 target.0) invalid_target_type
                      (all_fail invalid_target_type))
                    λ a. with_fact w λ g.
                      >>=-Leads w
                        (open_first-Leads w [] (directory_of target.0)
                          (sys.system.open_directory target.0))
                        λ opened.
                          >>=-Leads w
                            (or_fail-Leads w target_changed opened
                              λ slots trace h. fails target_changed slots trace h.1.1)
                            λ p. with_fact w λ h. replace_in-Leads temporary target e f g p

-- A replacement, whatever the system answers: every descriptor that it opened is closed. If it
-- returns an identity, it has exchanged the names of the two paths, which are in one directory, has
-- unlinked the old file under the candidate's name and changed no other entry; both files were what
-- the caller expected; the target's metadata had the digest that the caller expects, and the
-- candidate's metadata, read again before the exchange, were equal to them and had it too; and the
-- identity is that of the file then seen under the target's name, which has the facts of the
-- candidate, as the file under the candidate's name had those of the target. If it fails with
-- another code than Unknown, it has changed no entry, or has taken back the one change
-- that it had made.
pub l_fs_replace_verified-Promised :
    {W : Type 0}
    → (w : ℕ → ℕ) (sys : Replacing W) (r : ReplaceRequest) (world : W)
    → Promised w
        (λ identity list. Published r identity × Replaced r list)
        (l_fs_replace_verified sys r world)
unfolding l_fs_replace_verified
l_fs_replace_verified-Promised w sys r world =
    close_slots-Promised w sys.system (Concluded w sys r) (replace_body sys r (start sys world)) (
      (replace_body-Leads w sys r).at (start sys world)
        (refl, (refl, (refl, record { balanced = refl; listed = refl }))))
