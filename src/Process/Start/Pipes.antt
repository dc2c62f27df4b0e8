-- ===== src/Process/Start/Pipes.antt =====
-- The descriptors of a process to be started: `set_descriptor_flags`, `supervised_pipe`, and what
-- was done of it, as a trace.
use yaca.Base.{ℕ, Bool, Option, none, some, List, ◌∷◌, leb, Bytes, if◌then◌else◌}
use yaca.Base.Result.{Result, ok, err}

-- FD_CLOEXEC of F_SETFD and O_NONBLOCK of F_SETFL.
pub data Flag : Type 0 where
  close_on_exec non_blocking : Flag

-- The storage that is given back by `free`.
pub data Buffer : Type 0 where
  component_arguments environment : Buffer

-- What is to be run, and how.
pub record Command : Type 0 where
  pub argv_mode : Bool
  pub cwd : Option Bytes
  pub executable : Bytes
  pub arguments : List (Option Bytes)
  pub environment : List Bytes
  pub input_bytes : Bytes

-- What the child of the fork runs: the arguments of `yaca_supervisor_run`.
pub record Launch : Type 0 where
  pub input : Option ℕ
  pub input_writer : Option ℕ
  pub output : Option ℕ
  pub error_output : Option ℕ
  pub control : Option ℕ
  pub status : Option ℕ
  pub command : Command

-- What has happened, the last one first.
pub data Deed : Type 0 where
  opened closed : ℕ → Deed
  flagged : Flag → ℕ → Deed
  acquired freed : Buffer → Deed
  forked : ℕ → Launch → Deed
  waited : ℕ → Deed

-- The answer of a call: its value, or `errno`.
abbrev pub Answer : Type 0 → Type 0
Answer A = Result ℕ A

pub record FlagAnswers : Type 0 where
  pub get : Option ℕ
  pub set : Option ℕ

-- The `errno` of a failure, and the trace.
unfoldable pub set_descriptor_flags : FlagAnswers → Flag → ℕ → List Deed → Option ℕ × List Deed
set_descriptor_flags answers flag descriptor trace = elim answers.get [
  | some error ↦ (some error, trace)
  | none ↦ elim answers.set [
    | some error ↦ (some error, trace)
    | none ↦ (none, flagged flag descriptor ∷ trace)
  ]
]

abbrev pub stderr_fileno : ℕ
stderr_fileno = 2

pub record EndAnswers : Type 0 where
  pub moved : Answer ℕ
  pub flags : FlagAnswers

-- A descriptor, what went wrong, and the trace.
pub record Moved : Type 0 where
  pub descriptor : ℕ
  pub error : Option ℕ
  pub trace : List Deed

-- F_DUPFD_CLOEXEC for a descriptor that stands where the child's streams go.
unfoldable pub move_up : Answer ℕ → ℕ → List Deed → Moved
move_up answer descriptor trace =
    if leb descriptor stderr_fileno
    then (elim answer [
      | err error ↦ record { descriptor = descriptor; error = some error; trace = trace }
      | ok moved ↦ record {
        descriptor = moved;
        error = none;
        trace = closed descriptor ∷ opened moved ∷ trace;
      }
    ])
    else record { descriptor = descriptor; error = none; trace = trace }

-- One round of the loop.
unfoldable pub pipe_end : EndAnswers → ℕ → List Deed → Moved
unfolding move_up set_descriptor_flags
pipe_end answers descriptor trace =
    let m = move_up answers.moved descriptor trace in
    elim m.error [
      | some error ↦ m
      | none ↦
          let f = set_descriptor_flags answers.flags close_on_exec m.descriptor m.trace in
          record { descriptor = m.descriptor; error = f.0; trace = f.1 }
    ]

pub record PipeAnswers : Type 0 where
  pub pipe : Answer (ℕ × ℕ)
  pub read_end : EndAnswers
  pub write_end : EndAnswers

-- Two descriptors; `none` is -1.
pub record Pipe : Type 0 where
  pub read_end : Option ℕ
  pub write_end : Option ℕ

abbrev pub no_pipe : Pipe
no_pipe = record { read_end = none; write_end = none }

pub record PipeResult : Type 0 where
  pub pipe : Pipe
  pub error : Option ℕ
  pub trace : List Deed

abbrev pub both_ends : EndAnswers → ℕ → Moved → PipeResult
both_ends answers write first =
    let second = pipe_end answers write first.trace in
    elim first.error [
      | some error ↦ record {
        pipe = record { read_end = some first.descriptor; write_end = some write };
        error = some error;
        trace = first.trace;
      }
      | none ↦ record {
        pipe = record { read_end = some first.descriptor; write_end = some second.descriptor };
        error = second.error;
        trace = second.trace;
      }
    ]

unfoldable pub pipe_of : PipeAnswers → Answer (ℕ × ℕ) → List Deed → PipeResult
unfolding pipe_end
pipe_of answers (err error) trace = record { pipe = no_pipe; error = some error; trace = trace }
pipe_of answers (ok (read, write)) trace =
    both_ends answers.write_end write
      (pipe_end answers.read_end read (opened write ∷ opened read ∷ trace))

-- The descriptors stay in the caller's pipe when a later step fails.
unfoldable pub supervised_pipe : PipeAnswers → List Deed → PipeResult
unfolding pipe_of
supervised_pipe answers trace = pipe_of answers answers.pipe trace
