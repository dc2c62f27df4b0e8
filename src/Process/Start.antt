-- ===== src/Process/Start.antt =====
-- `l_process_start` on POSIX systems: the admission of the request, and the acquisition of the
-- pipes, the child and the process.
pub mod Admit
pub mod Pipes
pub mod Launch
pub mod Balance
pub mod Outcome
pub mod Life
mod Examples
use yaca.Base.{
  ℕ, Bool, true, false, ◌&&◌, Option, none, some, List, [], ◌∷◌, Bytes, codes, if◌then◌else◌,
}
use yaca.Base.Result.{Result, ok, err, ◌>>=◌, ensure, or_raise}
use yaca.Process.State.{Process, fresh_process, errno_code}
use yaca.Process.Calls.{push_process}
use yaca.Process.Request.{Value, Entries, same_bytes}
use yaca.Process.Request.Arguments.{build_posix_arguments}
use yaca.Process.Request.Environment.{Environment, build_posix_environment}
use yaca.Process.Start.Admit.{
  Refusal, invalid_shell, invalid_environment, invalid_arguments, system, Selection, shell,
  component, Admitted, admit_request,
}
use yaca.Process.Start.Pipes.{
  Command, Deed, Buffer, component_arguments, environment, acquired, freed, waited,
}
use yaca.Process.Start.Launch.{StartAnswers, Startup, Attempt, close_in, acquire}

-- `waitpid` of a child.
abbrev pub wait_in : Option ℕ → List Deed → List Deed
wait_in none trace = trace
wait_in (some child) trace = waited child ∷ trace

-- `free` of the arguments, which are NULL for the shell, and of the environment.
abbrev pub free_arguments : Bool → List Deed → List Deed
free_arguments argv_mode trace = if argv_mode then freed component_arguments ∷ trace else trace

-- The trace behind `posix_start_failure`.
unfoldable pub abort_start : Bool → Startup → List Deed
abort_start argv_mode s =
    let controls = close_in s.status_pipe.write_end (
      close_in s.status_pipe.read_end
        (close_in s.control_pipe.write_end (close_in s.control_pipe.read_end s.trace))) in
    let outputs = close_in s.stderr_pipe.write_end (
      close_in s.stderr_pipe.read_end (
        close_in s.stdout_pipe.write_end
          (close_in s.stdout_pipe.read_end (wait_in s.child controls)))) in
    let inputs =
      close_in s.stdin_pipe.write_end
        (close_in s.stdin_pipe.read_end (close_in s.null_input outputs)) in
    freed environment ∷ free_arguments argv_mode inputs

-- The process that takes over the descriptors.
abbrev pub take_over : ℕ → Startup → Process
unfolding fresh_process
take_over started_at s = record fresh_process {
  process_id = s.child;
  stdout_read = s.stdout_pipe.read_end;
  stderr_read = s.stderr_pipe.read_end;
  control_write = s.control_pipe.write_end;
  status_read = s.status_pipe.read_end;
  started_at = started_at;
}

-- What the Lua function returns.
pub data Reply : Type 0 where
  refusal : Refusal → Reply
  started : Process → Reply

pub record Start : Type 0 where
  pub reply : Reply
  pub trace : List Deed

unfoldable pub finish_start : Bool → ℕ → Attempt → Start
unfolding abort_start errno_code
finish_start argv_mode started_at (err (s, error)) = record {
  reply = refusal (system (errno_code error));
  trace = abort_start argv_mode s;
}
finish_start argv_mode started_at (ok s) = record {
  reply = started (take_over started_at s);
  trace = freed environment ∷ free_arguments argv_mode s.trace;
}

-- The executable and the arguments, with the failures of the builder and of the list of shells.
abbrev pub select :
    StartAnswers → Entries → Selection → Result Refusal (Bytes × List (Option Bytes))
unfolding build_posix_arguments
select answers request (component executable input) = do
  arguments ←
      or_raise invalid_arguments
        (build_posix_arguments answers.arguments_memory answers.raw_count executable request)
  ok (executable, arguments)
select answers request (shell kind executable command) =
    ensure (same_bytes kind (codes "linux") && same_bytes executable (codes "/bin/sh"))
      invalid_shell
      (codes "/bin/sh", some (codes "/bin/sh") ∷ some (codes "-c") ∷ some command ∷ none ∷ [])

abbrev pub is_component : Selection → Bool
is_component (component executable input) = true
is_component (shell kind executable command) = false

abbrev input_bytes_of : Selection → Bytes
input_bytes_of (component executable input) = input
input_bytes_of (shell kind executable command) = []

abbrev pub acquired_arguments : Bool → List Deed
acquired_arguments argv_mode = if argv_mode then acquired component_arguments ∷ [] else []

abbrev pub command_of : Admitted → Bytes → List (Option Bytes) → List Bytes → Command
command_of a executable arguments items = record {
  argv_mode = is_component a.selection;
  cwd = a.cwd;
  executable = executable;
  arguments = arguments;
  environment = items;
  input_bytes = input_bytes_of a.selection;
}

-- With the arguments at hand: the environment, and all the rest.
unfoldable pub start_selected :
    StartAnswers → Admitted → Bytes × List (Option Bytes) → Option Environment → Start
unfolding finish_start acquire
start_selected answers a selected none = record {
  reply = refusal invalid_environment;
  trace = free_arguments (is_component a.selection) (acquired_arguments (is_component a.selection));
}
start_selected answers a selected (some built) =
    finish_start (is_component a.selection) a.started_at (
      acquire answers (command_of a selected.0 selected.1 built.items)
        (acquired environment ∷ acquired_arguments (is_component a.selection)))

-- What is started of a selection.
unfoldable pub start_of :
    StartAnswers → Admitted → Result Refusal (Bytes × List (Option Bytes)) → Start
unfolding start_selected build_posix_environment
start_of answers a (err refused) = record { reply = refusal refused; trace = [] }
start_of answers a (ok selected) =
    start_selected answers a selected (build_posix_environment answers.environment_memory a.request)

-- The reply and the trace, with the supervisors that are still abandoned.
unfoldable pub start_admitted : StartAnswers → List ℕ → Result Refusal Admitted → Start × List ℕ
unfolding start_of push_process select
start_admitted answers abandoned (err refused) =
    (record { reply = refusal refused; trace = [] }, abandoned)
start_admitted answers abandoned (ok a) = (
  start_of answers a (select answers a.request a.selection),
  (push_process answers.abandoned abandoned).1,
)

unfoldable pub l_process_start : StartAnswers → (Bytes → Value) → List ℕ → Start × List ℕ
unfolding start_admitted admit_request
l_process_start answers get abandoned = start_admitted answers abandoned (admit_request get)
