-- ===== src/Direct/Replace/Evidence.antt =====
-- What the log of a replacement shows.
use yaca.Base.{
  ◌∙◌, ℕ, true, false, ◌&&◌, none, some, List, [], ◌∷◌, ◌++◌, ◌≡◌, inl, inr, refl, ap, subst, arith,
  Bytes, ltb, length,
}
use yaca.Base.Result.{Result, ok, err}
use yaca.Paths.{split, posix_parent_and_name}
use yaca.Metadata.{same_bytes, posix_metadata_states_equal}
use yaca.Metadata.Xattrs.{proven}
use yaca.Direct.Facts.{
  Stat, Identity, identity_from_stat, same_posix_object, same_posix_published_facts,
  same_stat_observation,
}
use yaca.Direct.System.{
  State, unknown, target_changed, invalid_target_type, invalid_metadata,
  metadata_preservation_unsupported, Deed, exchanged, unlinked, Event, tried, saw, did,
  read_metadata, handle_at, entry_at, directory_of, entry_of, require, or_fail, change, observe,
  is_none,
}
use yaca.Direct.Rules.{changes}
use yaca.Direct.Rules.Calls.{Matches}
use yaca.Direct.Evidence.{
  Occurs, append-Occurs, given-Shows, Cut, Shows, weaken-Shows, any-Shows, fail-Shows, if-Shows,
  fact-Shows, or_fail-Shows, >>=-Shows, >>-Shows, Is, require-Shows, parts-Shows, verify-Shows,
  observe-Shows, change-Shows, IsChange, after, refused-Shows, open_first-Shows, open_second-Shows,
  open_third-Shows, Proven, close_slots-Proven,
}
use yaca.Direct.Rename.Evidence.{done_or-Shows, receipt-Shows}
use yaca.Direct.Delete.Evidence.{unlinked-IsChange}
use yaca.Direct.Replace.{
  Replacing, ReplaceRequest, has_behavior, is_single, has_identity, is_exchanged, is_observed,
  undo_exchange, finish_exchange, publish, replace_opened, replace_in, replace_body, start,
  l_fs_replace_verified,
}
use yaca.Direct.Replace.Proof.{Published, Replaced, is_exchanged-facts}
use yaca.Direct.Replace.Steps.{Prepared, capture-Shows, prepare-Shows}
use yaca.Direct.Replace.Promise.{l_fs_replace_verified-Promised}

exchanged-IsChange : (p : ℕ) (n m : Bytes) → IsChange (exchanged p n m)
exchanged-IsChange p n m = record { counts = λ trace. refl }

-- The directory of both paths is open and what the caller expects, and so are both files; the
-- target's metadata have the expected digest, and those of the candidate, read last before the
-- exchange, equal them and have it too. Behind the exchange each name shows the other's file, and
-- the handles the same. Then the old file is unlinked under the candidate's name.
pub record Swapped (r : ReplaceRequest) (identity : Identity) (log : List Event) (list : List Deed)
    : Type 0 where
  pub temporary : Bytes × Bytes
  pub target : Bytes × Bytes
  pub parent : ℕ
  pub candidate_handle : ℕ
  pub target_handle : ℕ
  pub temporary_named :
      posix_parent_and_name r.temporary_memory r.temporary_path ≡ split temporary.0 temporary.1
  pub target_named : posix_parent_and_name r.target_memory r.target_path ≡ split target.0 target.1
  pub one_directory : same_bytes temporary.0 target.0 ≡ true
  pub both : list ≡ unlinked parent temporary.1 ∷ exchanged parent temporary.1 target.1 ∷ []
  pub removal : Cut (did (unlinked parent temporary.1) none) log
  pub exchange : Cut (did (exchanged parent temporary.1 target.1) none) removal.earlier
  pub opened : Occurs (tried (directory_of target.0) (ok parent)) exchange.earlier
  pub parent_stat : Stat
  pub parent_seen : Occurs (saw (handle_at parent) (ok parent_stat)) exchange.earlier
  pub parent_matches : Matches r.target_parent parent_stat
  pub candidate_opened :
      Occurs (tried (entry_of parent temporary.1) (ok candidate_handle)) exchange.earlier
  pub target_opened : Occurs (tried (entry_of parent target.1) (ok target_handle)) exchange.earlier
  pub candidate : Stat
  pub candidate_seen : Occurs (saw (handle_at candidate_handle) (ok candidate)) exchange.earlier
  pub candidate_matches : Matches r.temporary candidate
  pub candidate_single : is_single candidate ≡ true
  pub old : Stat
  pub old_seen : Occurs (saw (handle_at target_handle) (ok old)) exchange.earlier
  pub old_matches : Matches r.target old
  pub old_single : is_single old ≡ true
  pub metadata : yaca.Metadata.State
  pub metadata_read : Occurs (read_metadata target_handle (proven metadata)) exchange.earlier
  pub behaves : has_behavior r.expected_behavior metadata ≡ true
  pub current : Stat
  pub state : yaca.Metadata.State
  pub rest : List Event
  pub prepared :
      exchange.earlier
      ≡ read_metadata candidate_handle (proven state)
        ∷ saw (handle_at candidate_handle) (ok current)
        ∷ rest
  pub copied : posix_metadata_states_equal metadata state ≡ true
  pub state_behaves : has_behavior r.expected_behavior state ≡ true
  pub published : Stat
  pub published_seen : Occurs (saw (entry_at parent target.1) (ok published)) exchange.later
  pub displaced : Stat
  pub displaced_seen : Occurs (saw (entry_at parent temporary.1) (ok displaced)) exchange.later
  pub same_candidate : same_posix_published_facts current published ≡ true
  pub same_target : same_posix_published_facts old displaced ≡ true
  pub candidate_again : Stat
  pub candidate_kept : Occurs (saw (handle_at candidate_handle) (ok candidate_again)) exchange.later
  pub candidate_observed : same_stat_observation published candidate_again ≡ true
  pub old_again : Stat
  pub old_kept : Occurs (saw (handle_at target_handle) (ok old_again)) exchange.later
  pub old_observed : same_stat_observation displaced old_again ≡ true
  pub shown : identity_from_stat published ≡ some identity

abbrev as_answer : Stat → Result ℕ Stat
as_answer found = ok found

abbrev stat_of : Stat → Result ℕ Stat → Stat
stat_of other (ok found) = found
stat_of other (err error) = other

same_stat : (a b : Stat) → as_answer a ≡ ok b → a ≡ b
same_stat a b h = ap (λ r. stat_of a r) h

is_observed-facts :
    (seen : Stat) (answer : Result ℕ Stat)
    → is_observed seen answer ≡ true
    → (found : Stat) × (answer ≡ ok found) × (same_stat_observation seen found ≡ true)
is_observed-facts seen (err error) h = grind (arith, h)
is_observed-facts seen (ok found) h = (found, refl, h)

-- What is seen between the exchange and the unlink.
record Finished (p : ℕ) (n m : Bytes) (c t : ℕ) (current old : Stat) (log : List Event)
    (list : List Deed) {W : Type 0} (identity : Identity) (s : State W) : Type 0 where
  published : Stat
  displaced : Stat
  candidate_again : Stat
  old_again : Stat
  same_candidate : same_posix_published_facts current published ≡ true
  same_target : same_posix_published_facts old displaced ≡ true
  candidate_observed : same_stat_observation published candidate_again ≡ true
  old_observed : same_stat_observation displaced old_again ≡ true
  shown : identity_from_stat published ≡ some identity
  is :
      Is
        (did (unlinked p n) none
          ∷ saw (handle_at t) (ok old_again)
          ∷ saw (handle_at c) (ok candidate_again)
          ∷ saw (entry_at p m) (ok published)
          ∷ saw (entry_at p n) (ok displaced)
          ∷ log)
        (unlinked p n ∷ list)
        s

module _ {W : Type 0} (sys : Replacing W) (r : ReplaceRequest) where
  module _ (p : ℕ) (n m : Bytes) where
    undo_exchange-Shows :
        {P : State W → Type 0}
        → {Q : Identity → State W → Type 0} → (seen : Stat) (a b : Result ℕ Stat)
        → Shows P Q (undo_exchange sys p n m seen a b)
    unfolding undo_exchange
    undo_exchange-Shows seen a b = >>=-Shows (any-Shows (or_fail unknown a)) λ displaced.
        >>=-Shows (any-Shows (or_fail unknown b)) λ published.
          >>-Shows (any-Shows (require (same_posix_object seen published) unknown)) λ x.
            >>=-Shows (any-Shows (change (sys.exchange p n m) (exchanged p n m))) λ refused.
              >>-Shows (any-Shows (require (is_none refused) unknown)) λ x.
                >>=-Shows (any-Shows (observe sys.system (entry_at p n))) λ answer.
                  >>=-Shows (any-Shows (or_fail unknown answer)) λ back.
                    >>=-Shows (any-Shows (observe sys.system (entry_at p m))) λ answer.
                      >>=-Shows (any-Shows (or_fail unknown answer)) λ target_back.
                        >>-Shows (any-Shows (require (same_posix_object seen back) unknown)) λ x.
                          >>-Shows
                            (any-Shows (require (same_posix_object displaced target_back) unknown))
                            λ x. fail-Shows target_changed

    finish_exchange-Shows :
        {log : List Event} {list : List Deed}
        → (c t : ℕ) (current old : Stat) (a b : Result ℕ Stat) → is_exchanged current old a b ≡ true
        → Shows
            (Is (saw (entry_at p m) b ∷ saw (entry_at p n) a ∷ log) list)
            (λ identity s. Finished p n m c t current old log list identity s)
            (finish_exchange sys p c t n a b)
    unfolding finish_exchange
    finish_exchange-Shows {log = log} {list = list} c t current old a b h =
        >>=-Shows (or_fail-Shows unknown a) λ displaced. fact-Shows λ e.
          >>=-Shows (or_fail-Shows unknown b) λ published. fact-Shows λ f.
            let same = is_exchanged-facts current old displaced published a b e f h in
            >>=-Shows (observe-Shows sys.system (handle_at c)) λ x3.
              >>-Shows (require-Shows (is_observed published x3) unknown) λ x. fact-Shows λ g.
                >>=-Shows (observe-Shows sys.system (handle_at t)) λ x4.
                  >>-Shows (require-Shows (is_observed displaced x4) unknown) λ x. fact-Shows λ k.
                    >>=-Shows
                      (change-Shows (unlinked p n) (sys.system.unlink p n false)
                        (unlinked-IsChange p n))
                      λ refused.
                        >>-Shows
                          (refused-Shows
                            (λ x.
                              Is
                                (did (unlinked p n) x
                                  ∷ saw (handle_at t) x4
                                  ∷ saw (handle_at c) x3
                                  ∷ saw (entry_at p m) b
                                  ∷ saw (entry_at p n) a
                                  ∷ log)
                                (after (unlinked p n) x list))
                            refused unknown)
                          λ x.
                            weaken-Shows (receipt-Shows (identity_from_stat published))
                              λ identity s q.
                                let (candidate_again, v, kept) = is_observed-facts published x3 g in
                                let (old_again, u, old_kept) = is_observed-facts displaced x4 k in
                                let at = λ (y4 y3 yb ya : Result ℕ Stat).
                                  Is
                                    (did (unlinked p n) none
                                      ∷ saw (handle_at t) y4
                                      ∷ saw (handle_at c) y3
                                      ∷ saw (entry_at p m) yb
                                      ∷ saw (entry_at p n) ya
                                      ∷ log)
                                    (unlinked p n ∷ list) s in
                                record {
                                  published = published;
                                  displaced = displaced;
                                  candidate_again = candidate_again;
                                  old_again = old_again;
                                  same_candidate = same.0;
                                  same_target = same.1;
                                  candidate_observed = kept;
                                  old_observed = old_kept;
                                  shown = q.0;
                                  is =
                                      subst
                                        (λ y.
                                          at (ok old_again) (ok candidate_again) (ok published) y)
                                        e
                                        (subst (λ y. at (ok old_again) (ok candidate_again) y a) f
                                          (subst (λ y. at (ok old_again) y b a) v
                                            (subst (λ y. at y x3 b a) u q.1)));
                                }

    publish-Shows :
        {log : List Event}
        → (c t : ℕ) (candidate current old : Stat)
        → Shows
            (Is log [])
            (λ identity s.
              Finished p n m c t current old
                (did (exchanged p n m) none ∷ log)
                (exchanged p n m ∷ [])
                identity
                s)
            (publish sys p c t n m candidate current old)
    unfolding publish
    publish-Shows {log = log} c t candidate current old =
        >>=-Shows (change-Shows (exchanged p n m) (sys.exchange p n m) (exchanged-IsChange p n m))
          λ refused.
            >>-Shows
              (done_or-Shows
                (λ x. Is (did (exchanged p n m) x ∷ log) (after (exchanged p n m) x [])) refused)
              λ x. >>=-Shows (observe-Shows sys.system (entry_at p n)) λ a.
                >>=-Shows (observe-Shows sys.system (entry_at p m)) λ b.
                  if-Shows (is_exchanged current old a b)
                    (λ h. finish_exchange-Shows c t current old a b h)
                    λ h. undo_exchange-Shows candidate a b

  Conclusion : Identity → State W → Type 0
  Conclusion identity s = Swapped r identity s.log (changes s.trace)

  module _ (temporary target : Bytes × Bytes) (p : ℕ) (a : Result ℕ ℕ)
      (temporary_named : posix_parent_and_name r.temporary_memory r.temporary_path
        ≡ split temporary.0 temporary.1)
      (target_named : posix_parent_and_name r.target_memory r.target_path ≡ split target.0 target.1)
      (one_directory : same_bytes temporary.0 target.0 ≡ true) (opened : a ≡ ok p) where
    -- The parts, put together.
    conclude :
        (b1 : Result ℕ Stat) (c1 c2 : Result ℕ ℕ) (d1 d2 : Result ℕ Stat) (c t : ℕ)
        (found target_found seen old parent_stat : Stat) (metadata : yaca.Metadata.State)
        (current : Stat) (x : Prepared r metadata) (identity : Identity) (s : State W)
        → ((b1 ≡ ok parent_stat) × Matches r.target_parent parent_stat)
        → c1 ≡ ok c
        → c2 ≡ ok t
        → d1 ≡ ok found
        → d2 ≡ ok target_found
        → ((as_answer found ≡ ok seen) × Matches r.temporary seen)
        → ((as_answer target_found ≡ ok old) × Matches r.target old)
        → (is_single found && is_single target_found) ≡ true
        → has_behavior r.expected_behavior metadata ≡ true
        → Finished p temporary.1 target.1 c t current old
            (did (exchanged p temporary.1 target.1) none
              ∷ read_metadata c (proven x.state)
              ∷ saw (handle_at c) (ok current)
              ∷ (x.extra
                  ++ (read_metadata t (proven metadata)
                      ∷ saw (handle_at t) d2
                      ∷ saw (handle_at c) d1
                      ∷ tried (entry_of p target.1) c2
                      ∷ tried (entry_of p temporary.1) c1
                      ∷ saw (handle_at p) b1
                      ∷ tried (directory_of target.0) a
                      ∷ [])))
            (exchanged p temporary.1 target.1 ∷ [])
            identity
            s
        → Conclusion identity s
    unfolding Conclusion
    conclude b1 c1 c2 d1 d2 c t found target_found seen old parent_stat metadata current x identity
          s e1 e2 e3 e4 e5 e6 e7 single behaves h =
        let n = temporary.1 in
        let m = target.1 in
        let start_log =
          read_metadata t (proven metadata)
          ∷ saw (handle_at t) d2
          ∷ saw (handle_at c) d1
          ∷ tried (entry_of p m) c2
          ∷ tried (entry_of p n) c1
          ∷ saw (handle_at p) b1
          ∷ tried (directory_of target.0) a
          ∷ [] in
        let rest = x.extra ++ start_log in
        let early = read_metadata c (proven x.state) ∷ saw (handle_at c) (ok current) ∷ rest in
        let between =
          saw (handle_at t) (ok h.old_again)
          ∷ saw (handle_at c) (ok h.candidate_again)
          ∷ saw (entry_at p m) (ok h.published)
          ∷ saw (entry_at p n) (ok h.displaced)
          ∷ [] in
        let put : (event : Event) → Occurs event start_log → Occurs event early =
          λ event o. inr (inr (append-Occurs event x.extra start_log o)) in
        record {
          temporary = temporary;
          target = target;
          parent = p;
          candidate_handle = c;
          target_handle = t;
          temporary_named = temporary_named;
          target_named = target_named;
          one_directory = one_directory;
          both = h.is.listed;
          removal = record {
            later = [];
            earlier = between ++ (did (exchanged p n m) none ∷ early);
            whole = h.is.events;
          };
          exchange = record { later = between; earlier = early; whole = refl };
          opened =
              subst (λ y. Occurs (tried (directory_of target.0) y) early) opened
                (put (tried (directory_of target.0) a)
                  (inr (inr (inr (inr (inr (inr (inl refl))))))));
          parent_stat = parent_stat;
          parent_seen =
              subst (λ y. Occurs (saw (handle_at p) y) early) e1.0
                (put (saw (handle_at p) b1) (inr (inr (inr (inr (inr (inl refl)))))));
          parent_matches = e1.1;
          candidate_opened =
              subst (λ y. Occurs (tried (entry_of p n) y) early) e2
                (put (tried (entry_of p n) c1) (inr (inr (inr (inr (inl refl))))));
          target_opened =
              subst (λ y. Occurs (tried (entry_of p m) y) early) e3
                (put (tried (entry_of p m) c2) (inr (inr (inr (inl refl)))));
          candidate = seen;
          candidate_seen =
              subst (λ y. Occurs (saw (handle_at c) y) early) (e4 ∙ e6.0)
                (put (saw (handle_at c) d1) (inr (inr (inl refl))));
          candidate_matches = e6.1;
          candidate_single =
              subst (λ y. is_single y ≡ true) (same_stat found seen e6.0) (ground (arith, single));
          old = old;
          old_seen =
              subst (λ y. Occurs (saw (handle_at t) y) early) (e5 ∙ e7.0)
                (put (saw (handle_at t) d2) (inr (inl refl)));
          old_matches = e7.1;
          old_single =
              subst (λ y. is_single y ≡ true) (same_stat target_found old e7.0)
                (ground (arith, single));
          metadata = metadata;
          metadata_read = put (read_metadata t (proven metadata)) (inl refl);
          behaves = behaves;
          current = current;
          state = x.state;
          rest = rest;
          prepared = refl;
          copied = x.copied;
          state_behaves = x.behaves;
          published = h.published;
          published_seen = inr (inr (inl refl));
          displaced = h.displaced;
          displaced_seen = inr (inr (inr (inl refl)));
          same_candidate = h.same_candidate;
          same_target = h.same_target;
          candidate_again = h.candidate_again;
          candidate_kept = inr (inl refl);
          candidate_observed = h.candidate_observed;
          old_again = h.old_again;
          old_kept = inl refl;
          old_observed = h.old_observed;
          shown = h.shown;
        }

    replace_in-Shows :
        Shows
          (Is (tried (directory_of target.0) a ∷ []) [])
          Conclusion
          (replace_in sys r p temporary.1 target.1)
    unfolding replace_in replace_opened Conclusion
    replace_in-Shows =
        let n = temporary.1 in
        let m = target.1 in
        let e = metadata_preservation_unsupported in
        >>=-Shows (observe-Shows sys.system (handle_at p)) λ b1.
          >>-Shows (verify-Shows r.target_parent b1) λ parent_stat. fact-Shows λ e1.
            >>=-Shows (open_second-Shows (entry_of p n) (sys.open_candidate p n)) λ c1.
              >>=-Shows (open_third-Shows (entry_of p m) (sys.open_target p m)) λ c2.
                >>=-Shows (or_fail-Shows target_changed c1) λ c. fact-Shows λ e2.
                  >>=-Shows (or_fail-Shows target_changed c2) λ t. fact-Shows λ e3.
                    >>=-Shows (observe-Shows sys.system (handle_at c)) λ d1.
                      >>=-Shows (or_fail-Shows target_changed d1) λ found. fact-Shows λ e4.
                        >>=-Shows (observe-Shows sys.system (handle_at t)) λ d2.
                          >>=-Shows (or_fail-Shows target_changed d2) λ target_found.
                            fact-Shows λ e5.
                              >>-Shows
                                (require-Shows (is_single found && is_single target_found)
                                  target_changed)
                                λ x. fact-Shows λ single.
                                  >>-Shows
                                    (require-Shows
                                      (has_identity (identity_from_stat found)
                                        && has_identity (identity_from_stat target_found))
                                      target_changed)
                                    λ x. fact-Shows λ identified.
                                      >>=-Shows (verify-Shows r.temporary (ok found)) λ seen.
                                        fact-Shows λ e6.
                                          >>=-Shows (verify-Shows r.target (ok target_found)) λ old.
                                            fact-Shows λ e7.
                                              >>=-Shows (capture-Shows sys r e t old (r.memory 0))
                                                λ metadata.
                                                  >>-Shows
                                                    (require-Shows
                                                      (has_behavior r.expected_behavior metadata) e)
                                                    λ x. fact-Shows λ behaves.
                                                      >>=-Shows
                                                        (prepare-Shows sys r c t seen old metadata)
                                                        λ current. given-Shows λ x.
                                                          weaken-Shows
                                                            (publish-Shows p n m c t seen current
                                                            old)
                                                            λ identity s h.
                                                            conclude b1 c1 c2 d1 d2 c t found
                                                            target_found seen old parent_stat
                                                            metadata current x identity s e1 e2 e3
                                                            e4 e5 e6 e7 single behaves h

  replace_body-Shows : Shows (Is [] []) Conclusion (replace_body sys r)
  unfolding replace_body
  replace_body-Shows =
      >>-Shows (require-Shows (ltb (length r.expected_behavior) 96) invalid_metadata) λ x.
        fact-Shows λ short.
          >>=-Shows (parts-Shows (posix_parent_and_name r.temporary_memory r.temporary_path))
            λ temporary. fact-Shows λ e.
              >>=-Shows (parts-Shows (posix_parent_and_name r.target_memory r.target_path))
                λ target. fact-Shows λ f.
                  >>-Shows (require-Shows (same_bytes temporary.0 target.0) invalid_target_type)
                    λ x. fact-Shows λ one.
                      >>=-Shows
                        (open_first-Shows (directory_of target.0)
                          (sys.system.open_directory target.0))
                        λ a.
                          >>=-Shows (or_fail-Shows target_changed a)
                            λ p. fact-Shows λ h. replace_in-Shows temporary target p a e f one h

pub l_fs_replace_verified-Proven :
    {W : Type 0}
    → (w : ℕ → ℕ) (sys : Replacing W) (r : ReplaceRequest) (world : W)
    → Proven w (Swapped r) (l_fs_replace_verified sys r world)
unfolding l_fs_replace_verified Conclusion
l_fs_replace_verified-Proven w sys r world =
    let ended = replace_body sys r (start sys world) in
    close_slots-Proven w sys.system (λ identity list. Published r identity × Replaced r list)
      (Swapped r) ended.0 ended.1 (l_fs_replace_verified-Promised w sys r world)
      ((replace_body-Shows sys r).at (start sys world) (record { events = refl; listed = refl }))
