-- ===== src/Process/Start/Examples.antt =====
-- Two starts, one that gives a process and one whose child reports an error, and the theorems on
-- them.
use yaca.Base.{ℕ, ◌+◌, true, none, some, [], ◌∷◌, ◌≡◌, refl, Bytes, codes}
use yaca.Base.Int.{pos}
use yaca.Base.Result.{ok}
use yaca.Process.State.{Process, fresh_process, access_denied}
use yaca.Process.Refresh.{WaitAnswer, Answers}
use yaca.Process.Request.{Value, Entries, entry, no_entry, string, table, integer, field}
use yaca.Process.Calls.{CollectAnswers, cancel, l_process_gc, perform_all}
use yaca.Process.Calls.Descriptors.{count}
use yaca.Process.Start.Admit.{system}
use yaca.Process.Start.Pipes.{EndAnswers, FlagAnswers, PipeAnswers}
use yaca.Process.Start.Launch.{StartAnswers}
use yaca.Process.Start.{started, refusal, l_process_start}
use yaca.Process.Start.Balance.{Weights, gains, losses}
use yaca.Process.Start.Outcome.{Settled, l_process_start-Settled}
use yaca.Process.Start.Life.{one_descriptor, l_process_start-gc}

abbrev shell : Entries
shell =
    entry (string (codes "kind")) (string (codes "linux"))
      (entry (string (codes "executable")) (string (codes "/bin/sh")) no_entry)

abbrev request : Entries
request = entry (string (codes "command")) (string (codes "ls")) (
    entry (string (codes "started_at")) (integer (pos 100)) (
      entry (string (codes "shell")) (table shell)
        (entry (string (codes "environment")) (table no_entry) no_entry)))

abbrev get : Bytes → Value
unfolding field
get name = field name request

abbrev flags : FlagAnswers
flags = record { get = none; set = none }

abbrev end_answers : ℕ → EndAnswers
end_answers moved = record { moved = ok moved; flags = flags }

abbrev pipe_answers : ℕ → ℕ → PipeAnswers
pipe_answers read write = record {
  pipe = ok (read, write);
  read_end = end_answers 20;
  write_end = end_answers 21;
}

-- The first pipe stands where the streams of the parent were, so that it is moved.
abbrev answers : Bytes → StartAnswers
answers report = record {
  abandoned = λ p. WaitAnswer.running;
  raw_count = 0;
  arguments_memory = true;
  environment_memory = record { calloc = true; realloc = λ n. true; malloc = λ n. true };
  stdout_pipe = pipe_answers 0 1;
  stderr_pipe = pipe_answers 5 6;
  control_pipe = pipe_answers 7 8;
  status_pipe = pipe_answers 9 10;
  stdin_pipe = pipe_answers 11 12;
  stdout_flags = flags;
  stderr_flags = flags;
  control_flags = flags;
  stdin_flags = flags;
  status_flags = flags;
  null_input = ok 13;
  null_moved = ok 14;
  fork = ok 41;
  report = ok report;
}

abbrev zero_report : Bytes
zero_report = 0 ∷ 0 ∷ 0 ∷ 0 ∷ []

-- EACCES.
abbrev denied_report : Bytes
denied_report = 13 ∷ 0 ∷ 0 ∷ 0 ∷ []

abbrev process : Process
unfolding fresh_process
process = record fresh_process {
  process_id = some 41;
  stdout_read = some 20;
  stderr_read = some 5;
  control_write = some 8;
  status_read = some 9;
  started_at = 100;
}

start_run : (l_process_start (answers zero_report) get []).0.reply ≡ started process
unfolding l_process_start
start_run = refl

denied_run :
    (l_process_start (answers denied_report) get []).0.reply ≡ refusal (system access_denied)
unfolding l_process_start
denied_run = refl

abbrev weights : Weights
weights = record { descriptor = λ e. e; child = λ p. 1; buffer = λ b. 1 }

l_process_start-Settled_example :
    let r = (l_process_start (answers denied_report) get []).0 in Settled weights r.reply r.trace
l_process_start-Settled_example = l_process_start-Settled weights (answers denied_report) get []

abbrev waiting : Answers
waiting = record { wait = WaitAnswer.running; pipe = []; now = none }

abbrev collection : CollectAnswers
collection = record { refresh = λ i. waiting; memory = true }

l_process_start-gc_example :
    let trace = (l_process_start (answers zero_report) get []).0.trace in
    let q = (l_process_gc collection [] (perform_all process (cancel waiting ∷ []))).0 in
    (q.closed ≡ true)
    × (gains (one_descriptor 8) trace ≡ losses (one_descriptor 8) trace + count 8 q.released)
l_process_start-gc_example =
    l_process_start-gc (answers zero_report) get [] process (cancel waiting ∷ []) collection 8
      start_run
