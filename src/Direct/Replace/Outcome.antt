-- ===== src/Direct/Replace/Outcome.antt =====
-- What a replacement has done, by how it ended.
use yaca.Base.{ℕ, true, false, ◌&&◌, Option, none, some, List, [], ◌∷◌, ◌≡◌, refl, Bytes}
use yaca.Base.Result.{Result, ok}
use yaca.Metadata.{same_bytes, posix_metadata_states_equal}
use yaca.Direct.Facts.{Stat, Identity, identity_from_stat, same_posix_object}
use yaca.Direct.System.{
  entry_at, handle_at, Slots, unknown, target_changed, metadata_preservation_unsupported, Deed,
  exchanged, unlinked,
}
use yaca.Direct.Rules.{
  Stage, Leads, exchanged_back, Stage→unknown, Undone→Fails, >>=-Leads, >>-Leads, with_fact,
  pure-Leads, fail-Leads, if-Leads, observe-Leads, require-Leads, or_fail-Leads,
}
use yaca.Direct.Rules.Calls.{
  Matches, verify-Leads, Changed, exchange-Leads, unlink-Leads, require_only, refused-Leads,
}
use yaca.Direct.Rename.{done_or, receipt}
use yaca.Direct.Replace.{
  Replacing, ReplaceRequest, has_behavior, is_single, has_identity, is_exchanged, is_observed,
  undo_exchange, finish_exchange, publish, replace_opened,
}
use yaca.Direct.Replace.Proof.{
  IsPrepared, Published, is_exchanged-facts, fails, capture-Leads, prepare-Leads,
}

module _ (w : ℕ → ℕ) {W : Type 0} (sys : Replacing W) (r : ReplaceRequest) where
  done_or-Leads :
      (deed : Deed) (answer : Option ℕ)
      → Leads w {W = W} (Changed w deed [] answer) (λ a. Stage w (deed ∷ [])) (done_or answer)
  unfolding done_or
  done_or-Leads deed none = pure-Leads w true λ slots trace p. p
  done_or-Leads deed (some errno) = fail-Leads w _ (fails w sys r _)

  module _ (p : ℕ) (n m : Bytes) where
    abbrev pub swapped : List Deed
    swapped = exchanged p n m ∷ []

    abbrev pub finished : List Deed
    finished = unlinked p n ∷ swapped

    abbrev pub Done : Identity → Slots → List Deed → Type 0
    Done identity slots trace = Published r identity × Stage w finished slots trace

    undo_exchange-Leads :
        (Q : Identity → Slots → List Deed → Type 0) (seen : Stat) (a b : Result ℕ Stat)
        → Leads w (Stage w swapped) Q (undo_exchange sys p n m seen a b)
    unfolding undo_exchange
    undo_exchange-Leads Q seen a b =
        let lost = Stage→unknown w swapped in
        let twice = exchanged p n m ∷ swapped in
        let back_lost = Stage→unknown w twice in
        >>=-Leads w (or_fail-Leads w unknown a lost) λ displaced. with_fact w λ e.
          >>=-Leads w (or_fail-Leads w unknown b lost) λ published. with_fact w λ e.
            >>-Leads w (require_only w (same_posix_object seen published) unknown lost) λ a.
              >>=-Leads w (exchange-Leads w swapped (sys.exchange p n m) p n m) λ refused.
                >>-Leads w (refused-Leads w (exchanged p n m) swapped refused) λ a.
                  >>=-Leads w (observe-Leads w sys.system (entry_at p n)) λ answer.
                    >>=-Leads w (or_fail-Leads w unknown answer back_lost) λ back. with_fact w λ e.
                      >>=-Leads w (observe-Leads w sys.system (entry_at p m)) λ answer.
                        >>=-Leads w (or_fail-Leads w unknown answer back_lost) λ target_back.
                          with_fact w λ e.
                            >>-Leads w
                              (require_only w (same_posix_object seen back) unknown back_lost)
                              λ a.
                                >>-Leads w
                                  (require_only w (same_posix_object displaced target_back) unknown
                                    back_lost)
                                  λ a.
                                    fail-Leads w target_changed
                                      (Undone→Fails w twice (exchanged_back p n m) target_changed)

    receipt-Leads :
        (published : Stat) (identity : Option Identity)
        → ((found : Identity) → identity ≡ some found → Published r found)
        → Leads w {W = W} (Stage w finished) Done (receipt identity)
    unfolding receipt
    receipt-Leads published none h = fail-Leads w unknown (Stage→unknown w finished)
    receipt-Leads published (some identity) h =
        pure-Leads w identity λ slots trace p. (h identity refl, p)

    module _ (candidate target : Stat) (metadata : yaca.Metadata.State) (current : Stat)
        (candidate_expected : Matches r.temporary candidate)
        (target_expected : Matches r.target target)
        (behaves : has_behavior r.expected_behavior metadata ≡ true)
        (prepared : IsPrepared r metadata) where
      finish_exchange-Leads :
          (c t : ℕ) (a b : Result ℕ Stat)
          → is_exchanged current target a b ≡ true
          → Leads w (Stage w swapped) Done (finish_exchange sys p c t n a b)
      unfolding finish_exchange
      finish_exchange-Leads c t a b h =
          let lost = Stage→unknown w swapped in
          >>=-Leads w (or_fail-Leads w unknown a lost) λ displaced. with_fact w λ e.
            >>=-Leads w (or_fail-Leads w unknown b lost) λ published. with_fact w λ f.
              let same = is_exchanged-facts current target displaced published a b e f h in
              >>=-Leads w (observe-Leads w sys.system (handle_at c)) λ answer.
                >>-Leads w (require_only w (is_observed published answer) unknown lost) λ a.
                  >>=-Leads w (observe-Leads w sys.system (handle_at t)) λ answer.
                    >>-Leads w (require_only w (is_observed displaced answer) unknown lost) λ a.
                      >>=-Leads w (unlink-Leads w swapped (sys.system.unlink p n false) p n)
                        λ refused. >>-Leads w (refused-Leads w (unlinked p n) swapped refused) λ a.
                          receipt-Leads published (identity_from_stat published) λ identity shown.
                            record {
                              candidate = candidate;
                              target = target;
                              metadata = metadata;
                              current = current;
                              published = published;
                              displaced = displaced;
                              candidate_expected = candidate_expected;
                              target_expected = target_expected;
                              behaves = behaves;
                              prepared = prepared;
                              same_candidate = same.0;
                              same_target = same.1;
                              shown = shown;
                            }

      publish-Leads :
          (c t : ℕ) → Leads w (Stage w []) Done (publish sys p c t n m candidate current target)
      unfolding publish
      publish-Leads c t = >>=-Leads w (exchange-Leads w [] (sys.exchange p n m) p n m) λ refused.
          >>-Leads w (done_or-Leads (exchanged p n m) refused) λ a.
            >>=-Leads w (observe-Leads w sys.system (entry_at p n)) λ at_temporary.
              >>=-Leads w (observe-Leads w sys.system (entry_at p m)) λ at_target.
                if-Leads w (is_exchanged current target at_temporary at_target)
                  (λ h. finish_exchange-Leads c t at_temporary at_target h)
                  λ h. undo_exchange-Leads Done candidate at_temporary at_target

    pub replace_opened-Leads :
        (c t : ℕ) → Leads w (Stage w []) Done (replace_opened sys r p n m c t)
    unfolding replace_opened
    replace_opened-Leads c t =
        let failing = fails w sys r in
        let e = metadata_preservation_unsupported in
        >>=-Leads w (observe-Leads w sys.system (handle_at c)) λ answer.
          >>=-Leads w (or_fail-Leads w target_changed answer (failing target_changed)) λ found.
            with_fact w λ h. >>=-Leads w (observe-Leads w sys.system (handle_at t)) λ answer.
              >>=-Leads w (or_fail-Leads w target_changed answer (failing target_changed))
                λ target_found. with_fact w λ h.
                  >>-Leads w
                    (require_only w (is_single found && is_single target_found) target_changed
                      (failing target_changed))
                    λ a.
                      >>-Leads w
                        (require_only w
                          (has_identity (identity_from_stat found)
                            && has_identity (identity_from_stat target_found))
                          target_changed (failing target_changed))
                        λ a. >>=-Leads w (verify-Leads w r.temporary (ok found) failing) λ seen.
                          with_fact w λ expected.
                            >>=-Leads w (verify-Leads w r.target (ok target_found) failing)
                              λ target_seen. with_fact w λ target_expected.
                                >>=-Leads w (capture-Leads w sys r e t target_seen (r.memory 0))
                                  λ metadata.
                                    >>-Leads w
                                      (require-Leads w (has_behavior r.expected_behavior metadata) e
                                        (failing e))
                                      λ a. with_fact w λ behaves.
                                        >>=-Leads w
                                          (prepare-Leads w sys r c t seen target_seen metadata)
                                          λ current. with_fact w λ prepared.
                                            publish-Leads seen target_seen metadata current expected
                                              target_expected behaves prepared c t
