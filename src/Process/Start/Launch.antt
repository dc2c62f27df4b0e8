-- ===== src/Process/Start/Launch.antt =====
-- The part of `l_process_start` behind the admission, on POSIX systems.
use yaca.Base.{
  ℕ, Bool, true, false, ◌&&◌, Option, none, some, List, ◌∷◌, ◌==◌, Bytes, length, if◌then◌else◌,
}
use yaca.Base.Result.{Result, ok, err, ◌>>=◌}
use yaca.Process.State.{word_at}
use yaca.Process.Refresh.{WaitAnswer}
use yaca.Process.Request.Environment.{Memory}
use yaca.Process.Start.Pipes.{
  Deed, Launch, Command, non_blocking, Pipe, no_pipe, PipeResult, PipeAnswers, FlagAnswers, Answer,
  Moved, supervised_pipe, set_descriptor_flags, move_up, opened, closed, forked,
}

-- The answer of the read of the child's report: fewer bytes than asked for at the end of the pipe.
pub record StartAnswers : Type 0 where
  pub abandoned : ℕ → WaitAnswer
  pub raw_count : ℕ
  pub arguments_memory : Bool
  pub environment_memory : Memory
  pub stdout_pipe : PipeAnswers
  pub stderr_pipe : PipeAnswers
  pub control_pipe : PipeAnswers
  pub status_pipe : PipeAnswers
  pub stdin_pipe : PipeAnswers
  pub stdout_flags : FlagAnswers
  pub stderr_flags : FlagAnswers
  pub control_flags : FlagAnswers
  pub stdin_flags : FlagAnswers
  pub status_flags : FlagAnswers
  pub null_input : Answer ℕ
  pub null_moved : Answer ℕ
  pub fork : Answer ℕ
  pub report : Answer Bytes

-- The local variables; `none` is -1, and NULL for the arguments. `trace` is the model's own.
pub record Startup : Type 0 where
  pub stdout_pipe : Pipe
  pub stderr_pipe : Pipe
  pub stdin_pipe : Pipe
  pub control_pipe : Pipe
  pub status_pipe : Pipe
  pub null_input : Option ℕ
  pub child : Option ℕ
  pub trace : List Deed

-- The jump to `posix_start_failure` carries the variables and `error_value`.
abbrev pub Attempt : Type 0
Attempt = Result (Startup × ℕ) Startup

abbrev pub unless_failed : Startup → Option ℕ → Attempt
unless_failed s none = ok s
unless_failed s (some error) = err (s, error)

-- `set_descriptor_flags` on an end of a pipe, which is open where the source calls it.
abbrev pub flagged_end : FlagAnswers → Option ℕ → Startup → Attempt
flagged_end answers none s = ok s
flagged_end answers (some descriptor) s =
    let f = set_descriptor_flags answers non_blocking descriptor s.trace in
    unless_failed (record s { trace = f.1 }) f.0

-- `supervised_pipe` on one of the pipes.
abbrev pub pipe_stdout : PipeResult → Startup → Startup
pipe_stdout r s = record s { stdout_pipe = r.pipe; trace = r.trace }

abbrev pub pipe_stderr : PipeResult → Startup → Startup
pipe_stderr r s = record s { stderr_pipe = r.pipe; trace = r.trace }

abbrev pub pipe_stdin : PipeResult → Startup → Startup
pipe_stdin r s = record s { stdin_pipe = r.pipe; trace = r.trace }

abbrev pub pipe_control : PipeResult → Startup → Startup
pipe_control r s = record s { control_pipe = r.pipe; trace = r.trace }

abbrev pub pipe_status : PipeResult → Startup → Startup
pipe_status r s = record s { status_pipe = r.pipe; trace = r.trace }

unfoldable pub open_outputs : StartAnswers → Startup → Attempt
unfolding supervised_pipe
open_outputs answers s = do
  let out = supervised_pipe answers.stdout_pipe s.trace
  s ← unless_failed (pipe_stdout out s) out.error
  let errors = supervised_pipe answers.stderr_pipe s.trace
  unless_failed (pipe_stderr errors s) errors.error

unfoldable pub open_controls : StartAnswers → Startup → Attempt
unfolding supervised_pipe
open_controls answers s = do
  let control = supervised_pipe answers.control_pipe s.trace
  s ← unless_failed (pipe_control control s) control.error
  let status = supervised_pipe answers.status_pipe s.trace
  unless_failed (pipe_status status s) status.error

unfoldable pub flag_pipes : StartAnswers → Startup → Attempt
unfolding set_descriptor_flags
flag_pipes answers s = do
  s ← flagged_end answers.stdout_flags s.stdout_pipe.read_end s
  s ← flagged_end answers.stderr_flags s.stderr_pipe.read_end s
  flagged_end answers.control_flags s.control_pipe.read_end s

abbrev pub put_null : Startup → Moved → Startup
put_null s m = record s { null_input = some m.descriptor; trace = m.trace }

abbrev pub null_moved : Startup → Moved → Attempt
null_moved s m = unless_failed (put_null s m) m.error

abbrev pub open_null : StartAnswers → Answer ℕ → Startup → Attempt
unfolding move_up
open_null answers (err error) s = err (s, error)
open_null answers (ok descriptor) s =
    null_moved s (move_up answers.null_moved descriptor (opened descriptor ∷ s.trace))

unfoldable pub open_input : StartAnswers → Bool → Startup → Attempt
unfolding supervised_pipe set_descriptor_flags open_null
open_input answers true s = do
  let input = supervised_pipe answers.stdin_pipe s.trace
  s ← unless_failed (pipe_stdin input s) input.error
  flagged_end answers.stdin_flags s.stdin_pipe.write_end s
open_input answers false s = open_null answers answers.null_input s

-- `if (descriptor >= 0) close(descriptor)`
abbrev pub close_in : Option ℕ → List Deed → List Deed
close_in none trace = trace
close_in (some descriptor) trace = closed descriptor ∷ trace

-- What the parent closes behind the fork.
unfoldable pub close_child_ends : Startup → Startup
close_child_ends s =
    let trace = close_in s.stderr_pipe.write_end (
      close_in s.stdout_pipe.write_end
        (close_in s.status_pipe.write_end (close_in s.control_pipe.read_end s.trace))) in
    record s {
      control_pipe = record { read_end = none; write_end = s.control_pipe.write_end };
      status_pipe = record { read_end = s.status_pipe.read_end; write_end = none };
      stdout_pipe = record { read_end = s.stdout_pipe.read_end; write_end = none };
      stderr_pipe = record { read_end = s.stderr_pipe.read_end; write_end = none };
      stdin_pipe = no_pipe;
      null_input = none;
      trace =
          close_in s.null_input
            (close_in s.stdin_pipe.write_end (close_in s.stdin_pipe.read_end trace));
    }

-- What the child runs, with the descriptors at the fork.
abbrev input_of : Bool → Startup → Option ℕ
input_of true s = s.stdin_pipe.read_end
input_of false s = s.null_input

abbrev pub launch_of : Command → Startup → Launch
launch_of c s = record {
  input = input_of c.argv_mode s;
  input_writer = s.stdin_pipe.write_end;
  output = s.stdout_pipe.write_end;
  error_output = s.stderr_pipe.write_end;
  control = s.control_pipe.read_end;
  status = s.status_pipe.write_end;
  command = c;
}

-- The parent's variables behind the fork.
abbrev pub with_child : Command → ℕ → Startup → Startup
with_child c child s = record s {
  child = some child;
  trace = forked child (launch_of c s) ∷ s.trace;
}

unfoldable pub fork_child : Command → Answer ℕ → Startup → Attempt
unfolding close_child_ends
fork_child c (err error) s = err (s, error)
fork_child c (ok child) s = ok (close_child_ends (with_child c child s))

abbrev pub eio : ℕ
eio = 5

-- `startup_error != 0 ? startup_error : EIO`
abbrev pub reported : ℕ → ℕ
reported error = if error == 0 then eio else error

-- The child's report: an `int`, which is zero if the command runs.
unfoldable pub read_report : FlagAnswers → Answer Bytes → Startup → Attempt
unfolding set_descriptor_flags
read_report flags (err error) s = err (s, eio)
read_report flags (ok bytes) s =
    if (length bytes == 4) && (word_at bytes 0 == 0)
    then flagged_end flags s.status_pipe.read_end s
    else err (s, reported (word_at bytes 0))

abbrev pub initial : List Deed → Startup
initial trace = record {
  stdout_pipe = no_pipe;
  stderr_pipe = no_pipe;
  stdin_pipe = no_pipe;
  control_pipe = no_pipe;
  status_pipe = no_pipe;
  null_input = none;
  child = none;
  trace = trace;
}

unfoldable pub acquire : StartAnswers → Command → List Deed → Attempt
unfolding open_outputs open_controls flag_pipes open_input fork_child read_report
acquire answers c trace = do
  s ← open_outputs answers (initial trace)
  s ← open_controls answers s
  s ← flag_pipes answers s
  s ← open_input answers c.argv_mode s
  s ← fork_child c answers.fork s
  read_report answers.status_flags answers.report s
