-- ===== src/Process/Calls/Verdict.antt =====
-- What a join reports of the record that a supervisor has written, and of a supervisor that failed.
use yaca.Base.{
  ℕ, ◌+◌, ◌*◌, ◌<◌, Bytes, Bool, true, false, Option, none, some, List, ◌++◌, ◌==◌, ◌≡◌, arith,
  ◌&&◌, ◌||◌, sym, subst, if◌then◌else◌, replicate,
}
use yaca.Process.State.{
  Outcome, ExitKind, Process, record_size, close_process_streams, if_exited, exit_status,
}
use yaca.Supervisor.Message.{SupervisorResult, supervisor_magic, record_bytes}
use yaca.Supervisor.Rounds.{Round, Supervisor, finished, yaca_supervisor_run}
use yaca.Supervisor.Rounds.Proof.{Proven, run-Proven, some_asks_end}
use yaca.Process.Refresh.{WaitAnswer, refresh_posix_process}
use yaca.Process.Calls.{ProcessResult, result, l_process_join, duration}

-- A process that has not ended, with nothing read of the record yet.
abbrev pub running : Process → ℕ → Process
running p descriptor = record p {
  reaped = false;
  outcome = none;
  exit_kind = none;
  signal_or_exception = none;
  descendants_proven_stopped = false;
  status_read = some descriptor;
  status_bytes = 0;
  status_record = replicate record_size 0;
  closed = false;
}

-- How a leader ends, and the wait status that Linux gives to it.
pub data Ending : Type 0 where
  exited : ℕ → Ending
  killed : ℕ → Bool → Ending

abbrev pub IsEnding : Ending → Type 0
IsEnding (exited code) = code < 256
IsEnding (killed signal core) = (0 < signal) × (signal < 127)

abbrev pub status_of : Ending → ℕ
status_of (exited code) = code * 256
status_of (killed signal core) = signal + (if core then 128 else 0)

-- The record that a supervisor sends of an ending.
abbrev pub message : Bool → ℕ → SupervisorResult
message cancelled status = record {
  magic = supervisor_magic;
  leader_status = status;
  cancelled = cancelled;
}

-- What is to be reported of an ending.
abbrev pub outcome_of : Bool → Ending → Outcome
outcome_of true ending = Outcome.cancelled
outcome_of false (exited code) = if code == 0 then Outcome.completed else Outcome.failed
outcome_of false (killed signal core) = Outcome.failed

abbrev pub kind_of : Bool → Ending → ExitKind
kind_of true ending = ExitKind.cancelled
kind_of false (exited code) = ExitKind.exit_code
kind_of false (killed signal core) = ExitKind.signal

abbrev pub code_of : Bool → Ending → Option ℕ
code_of false (exited code) = some code
code_of cancelled ending = none

abbrev pub signal_of : Bool → Ending → Option ℕ
signal_of false (killed signal core) = some signal
signal_of cancelled ending = none

abbrev pub report : Bool → Ending → ℕ → ProcessResult
report cancelled ending duration_ms = record {
  outcome = some (outcome_of cancelled ending);
  exit_kind = some (kind_of cancelled ending);
  exit_code = code_of cancelled ending;
  signal_or_exception = signal_of cancelled ending;
  duration_ms = duration_ms;
  descendants_proven_stopped = true;
}

-- A supervisor that ends with status 0 behind a record: a join reports the outcome, and the exit
-- code or the signal, of the leader's ending, or the cancellation, with the descendants proven
-- stopped.
pub join-record_bytes :
    (p : Process) (descriptor : ℕ) (cancelled : Bool) (ending : Ending) (rest : Bytes)
    (now : Option ℕ)
    → IsEnding ending
    → (l_process_join
        (record {
          wait = WaitAnswer.ended 0;
          pipe = record_bytes (message cancelled (status_of ending)) ++ rest;
          now = now;
        })
        (running p descriptor)).1
      ≡ result (report cancelled ending (duration p.started_at now))
unfolding l_process_join refresh_posix_process
join-record_bytes p descriptor true (exited code) rest now h = ground arith
join-record_bytes p descriptor true (killed signal core) rest now h = ground arith
join-record_bytes p descriptor false (exited code) rest now h = ground arith
join-record_bytes p descriptor false (killed signal core) rest now h = ground arith

-- How a supervisor fails: it is no child any more, or it ends otherwise than by exit code 0.
abbrev pub wait_of : Option Ending → WaitAnswer
wait_of none = WaitAnswer.no_child
wait_of (some ending) = WaitAnswer.ended (status_of ending)

abbrev pub IsFailure : Option Ending → Type 0
IsFailure none = Unit {0}
IsFailure (some (exited code)) = (0 < code) × (code < 256)
IsFailure (some (killed signal core)) = (0 < signal) × (signal < 127)

abbrev pub unknown_report : ℕ → ProcessResult
unknown_report duration_ms = record {
  outcome = some Outcome.unknown;
  exit_kind = some ExitKind.outcome_unknown;
  exit_code = none;
  signal_or_exception = none;
  duration_ms = duration_ms;
  descendants_proven_stopped = false;
}

-- No failing ending is taken for a success.
failing :
    (ending : Ending)
    → IsFailure (some ending)
    → (if_exited (status_of ending) && (exit_status (status_of ending) == 0)) ≡ false
failing (exited code) h = ground arith
failing (killed signal core) h = ground arith

-- A supervisor that fails: whatever bytes are in the pipe, a complete record included, a join
-- reports an unknown outcome with nothing proven, and both streams are closed.
pub join-wait_of :
    (p : Process) (descriptor : ℕ) (supervisor : Option Ending) (pipe : Bytes) (now : Option ℕ)
    → IsFailure supervisor
    → let (q, reply) =
        l_process_join
          (record { wait = wait_of supervisor; pipe = pipe; now = now })
          (running p descriptor) in
      (reply ≡ result (unknown_report (duration p.started_at now)))
      × (q.stdout_read ≡ none)
      × (q.stderr_read ≡ none)
unfolding l_process_join refresh_posix_process close_process_streams
join-wait_of p descriptor none pipe now h = ground arith
join-wait_of p descriptor (some ending) pipe now h = simp (failing ending h) (ground arith)

-- A join behind a supervisor that ended with 0 and sent the record `r` reports `given`.
abbrev Reported : Process → ℕ → SupervisorResult → Bytes → Option ℕ → ProcessResult → Type 0
Reported p descriptor r rest now given =
    (l_process_join (record { wait = WaitAnswer.ended 0; pipe = record_bytes r ++ rest; now = now })
      (running p descriptor)).1
    ≡ result given

-- From end to end: if the loop of a supervisor finishes with a record whose status is that of an
-- ending of the leader, then a join that finds the supervisor ended with 0 and that record in the
-- pipe reports this ending, cancelled exactly if the supervisor was cancelled at the start or a
-- round that it used asked for the end.
pub join-run :
    (leader : ℕ) (stdin : Bytes) (rounds : List Round) (s t : Supervisor) (r : SupervisorResult)
    (ending : Ending) (p : Process) (descriptor : ℕ) (rest : Bytes) (now : Option ℕ)
    → (finish : yaca_supervisor_run leader stdin rounds s ≡ finished t r) → IsEnding ending
    → r.leader_status ≡ status_of ending
    → (l_process_join
        (record { wait = WaitAnswer.ended 0; pipe = record_bytes r ++ rest; now = now })
        (running p descriptor)).1
      ≡ result (
          report
            (s.cancelled
              || some_asks_end (Proven.used (run-Proven leader stdin rounds s t r finish)))
            ending
            (duration p.started_at now))
join-run leader stdin rounds s t r ending p descriptor rest now finish h e =
    let proof = run-Proven leader stdin rounds s t r finish in
    let same : r ≡ message r.cancelled (status_of ending) = ground arith in
    let joined = join-record_bytes p descriptor r.cancelled ending rest now h in
    subst (λ b. Reported p descriptor r rest now (report b ending (duration p.started_at now)))
      proof.is_cancelled
      (subst
        (λ m.
          Reported p descriptor m rest now (report r.cancelled ending (duration p.started_at now)))
        (sym same) joined)
