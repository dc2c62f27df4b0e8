-- ===== src/Process/Calls/Examples.antt =====
-- The theorems on a command that writes five bytes and exits with code 3, and a run of it.
use yaca.Base.{ℕ, Bytes, true, false, none, some, List, [], ◌∷◌, ◌++◌, ◌||◌, ◌≡◌, refl, arith}
use yaca.Base.Int.{pos}
use yaca.Process.State.{Outcome, Process, fresh_process}
use yaca.Supervisor.Message.{record_bytes}
use yaca.Supervisor.Rounds.{
  Supervisor, Round, finished, yaca_supervisor_run, ControlAnswer, WaitEnd, WriteAnswer,
}
use yaca.Supervisor.Rounds.Proof.{Proven, run-Proven, some_asks_end}
use yaca.Process.Refresh.{WaitAnswer, Answers, refresh_posix_process}
use yaca.Process.Refresh.Invariant.{IsConsistent}
use yaca.Process.Poll.{output, terminal, stdout, ReadAnswer, PollAnswers, l_process_poll}
use yaca.Process.Poll.Events.{protocol, announced, Done, l_process_poll-Done}
use yaca.Process.Calls.Abandoned.{push_process-gc}
use yaca.Process.Calls.{
  push_process, Call, poll, join, close, perform, perform_all, delivered_all, CollectAnswers,
  l_process_join, l_process_gc, result, duration, ProcessResult,
}
use yaca.Process.Calls.Once.{delivered_all-protocol}
use yaca.Process.Calls.Truth.{Rejoined, join-perform_all-join}
use yaca.Process.Calls.Descriptors.{gc-perform_all-held, held, count}
use yaca.Process.Calls.Verdict.{
  exited, killed, running, message, status_of, report, wait_of, unknown_report, join-record_bytes,
  join-wait_of, join-run,
}

abbrev started : Process
unfolding fresh_process
started = record fresh_process {
  process_id = some 41;
  stdout_read = some 5;
  stderr_read = some 6;
  control_write = some 7;
  status_read = some 8;
  started_at = 100;
}

started-IsConsistent : IsConsistent started
unfolding started
started-IsConsistent = record {
  decided = refl;
  truthful = λ h. cc;
  emitted_closed = λ h. cc;
  emitted_decided = λ h. cc;
}

abbrev waiting : Answers
waiting = record { wait = WaitAnswer.running; pipe = []; now = none }

abbrev ended : Answers
ended = record {
  wait = WaitAnswer.ended 0;
  pipe = record_bytes (message false (status_of (exited 3)));
  now = some 130;
}

abbrev text : Bytes
text = 104 ∷ 101 ∷ 108 ∷ 108 ∷ 111 ∷ []

abbrev output_ready : PollAnswers
output_ready = record {
  read_stdout = ReadAnswer.holds 104 (101 ∷ 108 ∷ 108 ∷ 111 ∷ []);
  read_stderr = ReadAnswer.not_ready;
  refresh = waiting;
  drain_stdout = ReadAnswer.not_ready;
  drain_stderr = ReadAnswer.not_ready;
}

abbrev over : PollAnswers
over = record {
  read_stdout = ReadAnswer.ended;
  read_stderr = ReadAnswer.ended;
  refresh = ended;
  drain_stdout = ReadAnswer.not_ready;
  drain_stderr = ReadAnswer.not_ready;
}

abbrev gc_answers : CollectAnswers
gc_answers = record { refresh = λ i. waiting; memory = true }

started_open : started.closed ≡ false
unfolding started
started_open = refl

started_released : started.released ≡ []
unfolding started
started_released = refl

abbrev calls : List Call
calls =
    poll (pos 4) (pos 64) output_ready
    ∷ poll (pos 4) (pos 64) over
    ∷ poll (pos 4) (pos 64) over
    ∷ join ended
    ∷ close
    ∷ []

delivered : delivered_all started calls ≡ output stdout text ∷ terminal Outcome.failed ∷ []
unfolding delivered_all perform started refresh_posix_process
delivered = refl

l_process_poll-Done_example : Done none 1 (l_process_poll (pos 1) (pos 2) output_ready started)
unfolding started
l_process_poll-Done_example = l_process_poll-Done 1 2 output_ready started started-IsConsistent

delivered_all-protocol_example :
    protocol none (delivered_all started calls) ≡ some (announced (perform_all started calls))
unfolding started
delivered_all-protocol_example = delivered_all-protocol started calls started-IsConsistent

abbrev first_result : ProcessResult
first_result = report false (exited 3) 30

first_join : (l_process_join ended started).1 ≡ result first_result
unfolding l_process_join started refresh_posix_process
first_join = refl

join-perform_all-join_example :
    let q = perform_all (l_process_join ended started).0 calls in
    Rejoined q first_result (l_process_join waiting q).1
join-perform_all-join_example =
    join-perform_all-join started ended waiting calls first_result first_join

join-record_bytes_example :
    (l_process_join
      (record {
        wait = WaitAnswer.ended 0;
        pipe = record_bytes (message false (status_of (killed 9 true))) ++ [];
        now = some 130;
      })
      (running started 8)).1
    ≡ result (report false (killed 9 true) (duration started.started_at (some 130)))
join-record_bytes_example =
    join-record_bytes started 8 false (killed 9 true) [] (some 130) (omega arith)

join-wait_of_example :
    let (q, reply) =
      l_process_join
        (record { wait = wait_of (some (exited 126)); pipe = []; now = none })
        (running started 8) in
    (reply ≡ result (unknown_report (duration started.started_at none)))
    × (q.stdout_read ≡ none)
    × (q.stderr_read ≡ none)
join-wait_of_example = join-wait_of started 8 (some (exited 126)) [] none (omega arith)

gc-perform_all-held_example :
    let q = (l_process_gc gc_answers [] (perform_all started calls)).0 in
    (q.closed ≡ true) × (held 7 q ≡ 0) × (count 7 q.released ≡ held 7 started)
gc-perform_all-held_example =
    gc-perform_all-held started calls gc_answers 7 started_open started_released

abbrev supervisor : Supervisor
supervisor = record {
  leader_status = 0;
  leader_done = false;
  cancelled = false;
  input_open = false;
  input_offset = 0;
  written = [];
}

-- The control pipe is closed, and the leader is reaped with SIGKILL as the last child.
abbrev closing : List Round
closing =
    record {
      control = ControlAnswer.received;
      interrupted = false;
      reaped = record { process_id = 40; status = 9 } ∷ [];
      wait_end = WaitEnd.no_child;
      write = WriteAnswer.not_now;
    }
    ∷ []

abbrev closed_supervisor : Supervisor
closed_supervisor = record supervisor { leader_status = 9; leader_done = true; cancelled = true }

closing_run :
    yaca_supervisor_run 40 [] closing supervisor ≡ finished closed_supervisor (message true 9)
unfolding yaca_supervisor_run
closing_run = refl

join-run_example :
    (l_process_join
      (record { wait = WaitAnswer.ended 0; pipe = record_bytes (message true 9) ++ []; now = none })
      (running started 8)).1
    ≡ result (
        report
          (false
            || some_asks_end (
                Proven.used (
                  run-Proven 40 [] closing supervisor closed_supervisor
                    (message true 9)
                    closing_run)))
          (killed 9 false)
          (duration started.started_at none))
join-run_example =
    join-run 40 [] closing supervisor closed_supervisor (message true 9) (killed 9 false) started 8
      [] none closing_run (omega arith) refl

abbrev gone : ℕ → WaitAnswer
gone process_id = WaitAnswer.ended 0

push_process-gc_example :
    ((l_process_gc gc_answers (9 ∷ []) started).1 ≡ 41 ∷ 9 ∷ [])
    × ((push_process gone (l_process_gc gc_answers (9 ∷ []) started).1).1
        ≡ (push_process gone (9 ∷ [])).1)
unfolding started
push_process-gc_example =
    push_process-gc gc_answers (9 ∷ []) started 41 gone refl refl refl refl (λ i. refl) refl refl
