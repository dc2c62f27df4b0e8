-- ===== src/Process/Poll/Preserve.antt =====
-- A predicate that the parts of a poll keep is kept by the poll, on every branch.
use yaca.Base.{
  ℕ, suc, zero, true, ◌&&◌, Option, none, some, List, [], ◌∷◌, ◌++◌, if-both, ltb, length,
}
use yaca.Base.Int.{ℤ, pos, negsuc}
use yaca.Process.State.{Outcome, Process}
use yaca.Process.Refresh.{Answers, refresh_posix_process}
use yaca.Process.Poll.{
  Stream, stdout, stderr, Progress, going, stopped, Event, l_process_poll, PollAnswers, ReadAnswer,
  read_stage, drain_stage, refresh_stage, terminal_stage, poll_within, read_answered,
  read_posix_process_stream, collect, close_stream, stream_of, emit, size_max, is_open, terminal,
  terminal_due,
}

module _ (P : Process → Type 0)
    (refreshed : (p : Process) (answers : Answers) → P p → P (refresh_posix_process p answers))
    (stream_closed : (stream : Stream) (p : Process) → P p → P (close_stream stream p))
    (terminal_marked : (p : Process) → P p → P (record p { terminal_emitted = true })) where
  abbrev pub Keeps : Progress → Type 0
  Keeps (going p events) = P p
  Keeps (stopped p code) = P p

  answered-Keeps :
      (stream : Stream) (maximum : ℕ) (p : Process) (events : List Event) (held : Option ℕ)
      (answer : ReadAnswer)
      → P p
      → Keeps (collect stream events (read_answered stream maximum p held answer))
  unfolding collect read_answered
  answered-Keeps stream maximum p events none answer k = k
  answered-Keeps stream maximum p events (some d) (ReadAnswer.holds byte bytes) k = k
  answered-Keeps stream maximum p events (some d) ReadAnswer.ended k = stream_closed stream p k
  answered-Keeps stream maximum p events (some d) ReadAnswer.not_ready k = k
  answered-Keeps stream maximum p events (some d) (ReadAnswer.broken errno) k = k

  read_stage-Keeps :
      (stream : Stream) (budget maximum : ℕ) (answer : ReadAnswer) (r : Progress)
      → Keeps r
      → Keeps (read_stage stream budget maximum answer r)
  unfolding read_stage read_posix_process_stream
  read_stage-Keeps stream budget maximum answer (stopped p code) k = k
  read_stage-Keeps stream budget maximum answer (going p events) k =
      if-both Keeps (ltb (length events) budget)
        (answered-Keeps stream maximum p events (stream_of stream p) answer k) k

  drain_stage-Keeps :
      (stream : Stream) (budget maximum : ℕ) (answer : ReadAnswer) (r : Progress)
      → Keeps r
      → Keeps (drain_stage stream budget maximum answer r)
  unfolding drain_stage read_posix_process_stream
  drain_stage-Keeps stream budget maximum answer (stopped p code) k = k
  drain_stage-Keeps stream budget maximum answer (going p events) k =
      if-both Keeps (p.reaped && (is_open (stream_of stream p) && ltb (length events) budget))
        (answered-Keeps stream maximum p events (stream_of stream p) answer k) k

  refresh_stage-Keeps :
      (answers : Answers) (r : Progress) → Keeps r → Keeps (refresh_stage answers r)
  unfolding refresh_stage
  refresh_stage-Keeps answers (stopped p code) k = k
  refresh_stage-Keeps answers (going p events) k = refreshed p answers k

  emit-Keeps :
      (budget : ℕ) (p : Process) (events : List Event) (outcome : Option Outcome)
      → P p
      → Keeps (emit budget p events outcome)
  emit-Keeps budget p events none k = k
  emit-Keeps budget p events (some outcome) k =
      if-both Keeps (terminal_due budget p events)
        {x = going (record p { terminal_emitted = true }) (events ++ (terminal outcome ∷ []))}
        {y = going p events} (terminal_marked p k) k

  terminal_stage-Keeps : (budget : ℕ) (r : Progress) → Keeps r → Keeps (terminal_stage budget r)
  unfolding terminal_stage
  terminal_stage-Keeps budget (stopped p code) k = k
  terminal_stage-Keeps budget (going p events) k = emit-Keeps budget p events p.outcome k

  poll_within-Keeps :
      (budget maximum : ℕ) (answers : PollAnswers) (p : Process)
      → P p
      → Keeps (poll_within budget maximum answers p)
  unfolding poll_within
  poll_within-Keeps budget maximum answers p k = terminal_stage-Keeps budget _ (
      drain_stage-Keeps stderr budget maximum answers.drain_stderr _ (
        drain_stage-Keeps stdout budget maximum answers.drain_stdout _ (
          refresh_stage-Keeps answers.refresh _ (
            read_stage-Keeps stderr budget maximum answers.read_stderr _
              (read_stage-Keeps stdout budget maximum answers.read_stdout (going p []) k)))))

  pub l_process_poll-Keeps :
      (budget maximum : ℤ) (answers : PollAnswers) (p : Process)
      → P p
      → Keeps (l_process_poll budget maximum answers p)
  unfolding l_process_poll
  l_process_poll-Keeps (negsuc budget) maximum answers p k = k
  l_process_poll-Keeps (pos budget) (negsuc maximum) answers p k = k
  l_process_poll-Keeps (pos budget) (pos zero) answers p k = k
  l_process_poll-Keeps (pos budget) (pos (suc maximum)) answers p k =
      if-both Keeps (ltb size_max budget) k (
        if-both Keeps (ltb size_max (suc maximum)) k
          (poll_within-Keeps budget (suc maximum) answers p k))
