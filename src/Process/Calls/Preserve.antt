-- ===== src/Process/Calls/Preserve.antt =====
-- A predicate that the parts of the calls keep is kept by the calls.
use yaca.Base.{
  ℕ, suc, zero, Bool, true, false, ◌||◌, not, Option, none, some, List, [], ◌∷◌, ◌≡◌, if-both, refl,
}
use yaca.Process.State.{Outcome, Process, is_decided, close_process_handles}
use yaca.Process.Refresh.{Answers, refresh_posix_process}
use yaca.Process.Poll.{Stream, close_stream, Progress, going, stopped}
use yaca.Process.Poll.Preserve.{Keeps, l_process_poll-Keeps}
use yaca.Process.Calls.{
  perform, perform_all, Call, Reply, poll_reply, l_process_cancel, l_process_join, l_process_close,
  l_process_gc, close_control, attempts, attempt_limit, collected, abandon_or_reap, CollectAnswers,
}

abbrev pub is_poll : Call → Bool
is_poll (Call.poll budget maximum answers) = true
is_poll call = false

module _ (P : Process → Type 0)
    (refreshed : (p : Process) (answers : Answers) → P p → P (refresh_posix_process p answers))
    (control_closed : (p : Process) → P p → P (close_control p))
    (cancel_marked : (p : Process) → P p → P (record p { cancel_requested = true }))
    (handles_closed : (p : Process) → P p → P (close_process_handles p)) where
  attempts-keeps :
      (rounds : ℕ) (answers : ℕ → Answers) (p : Process) → P p → P (attempts rounds answers p)
  unfolding attempts
  attempts-keeps zero answers p k = k
  attempts-keeps (suc rounds) answers p k =
      if-both P p.reaped k
        (attempts-keeps rounds (λ i. answers (suc i)) _ (refreshed p (answers 0) k))

  collected-keeps :
      (p : Process) (answers : CollectAnswers) (process_id : Option ℕ) (outcome : Option Outcome)
      → P p
      → P (collected answers [] p process_id outcome).0
  unfolding collected abandon_or_reap
  collected-keeps p answers none outcome k = k
  collected-keeps p answers (some process_id) (some outcome) k = k
  collected-keeps p answers (some process_id) none k =
      attempts-keeps attempt_limit answers.refresh _ (control_closed p k)

  pub gc-keeps : (p : Process) (answers : CollectAnswers) → P p → P (l_process_gc answers [] p).0
  unfolding l_process_gc
  gc-keeps p answers k =
      if-both (λ (r : Process × List ℕ). P r.0) p.closed k
        (handles_closed _ (collected-keeps p answers p.process_id p.outcome k))

  cancel-keeps : (p : Process) (answers : Answers) → P p → P (l_process_cancel answers p).0
  unfolding l_process_cancel
  cancel-keeps p answers k =
      let fresh = refreshed p answers k in
      if-both (λ (r : Process × Reply). P r.0) (is_decided p.outcome) k
        (if-both (λ (r : Process × Reply). P r.0)
          (is_decided (refresh_posix_process p answers).outcome) fresh
          (cancel_marked _ (control_closed _ fresh)))

  join-keeps : (p : Process) (answers : Answers) → P p → P (l_process_join answers p).0
  unfolding l_process_join
  join-keeps p answers k =
      let q = refresh_posix_process p answers in
      let fresh = refreshed p answers k in
      if-both (λ (r : Process × Reply). P r.0) p.closed k
        (if-both (λ (r : Process × Reply). P r.0) (not q.reaped || not (is_decided q.outcome)) fresh
          fresh)

  close-keeps : (p : Process) → P p → P (l_process_close p).0
  unfolding l_process_close
  close-keeps p k =
      if-both (λ (r : Process × Reply). P r.0) (not p.reaped || not (is_decided p.outcome)) k
        (handles_closed p k)

  pub perform-keeps :
      (p : Process) (call : Call) → is_poll call ≡ false → P p → P (perform p call).0
  unfolding perform
  perform-keeps p (Call.poll budget maximum answers) h k = cc
  perform-keeps p (Call.cancel answers) h k =
      if-both (λ (r : Process × Reply). P r.0) p.closed k (cancel-keeps p answers k)
  perform-keeps p (Call.join answers) h k = join-keeps p answers k
  perform-keeps p Call.close h k =
      if-both (λ (r : Process × Reply). P r.0) p.closed k (close-keeps p k)
  perform-keeps p (Call.gc answers) h k = gc-keeps p answers k

  module _ (stream_closed : (stream : Stream) (p : Process) → P p → P (close_stream stream p))
      (terminal_marked : (p : Process) → P p → P (record p { terminal_emitted = true })) where
    polled : (r : Progress) → Keeps P refreshed stream_closed terminal_marked r → P (poll_reply r).0
    polled (going p events) k = k
    polled (stopped p code) k = k

    perform-keeps_any : (p : Process) (call : Call) → P p → P (perform p call).0
    unfolding perform
    perform-keeps_any p (Call.poll budget maximum answers) k =
        if-both (λ (r : Process × Reply). P r.0) p.closed k
          (polled _ (
            l_process_poll-Keeps P refreshed stream_closed terminal_marked budget maximum answers p
              k))
    perform-keeps_any p (Call.cancel answers) k = perform-keeps p (Call.cancel answers) refl k
    perform-keeps_any p (Call.join answers) k = perform-keeps p (Call.join answers) refl k
    perform-keeps_any p Call.close k = perform-keeps p Call.close refl k
    perform-keeps_any p (Call.gc answers) k = perform-keeps p (Call.gc answers) refl k

    pub perform_all-keeps : (p : Process) (calls : List Call) → P p → P (perform_all p calls)
    unfolding perform_all
    perform_all-keeps p [] k = k
    perform_all-keeps p (call ∷ calls) k =
        perform_all-keeps (perform p call).0 calls (perform-keeps_any p call k)
