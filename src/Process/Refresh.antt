-- ===== src/Process/Refresh.antt =====
-- `refresh_posix_process`. What the system answers is an argument: a call that is repeated while it
-- is interrupted by a signal stands for its last answer.
pub mod Invariant
pub mod Holdings
use yaca.Base.{
  ℕ, zero, suc, ◌+◌, ◌-◌, Bool, true, false, ◌&&◌, Option, none, some, List, [], ◌∷◌, ◌++◌, Bytes,
  length, take, drop, replicate, ltb, ◌==◌, if◌then◌else◌,
}
use yaca.Supervisor.Message.{supervisor_magic}
use yaca.Process.State.{
  Outcome, ExitKind, Process, record_size, close_process_streams, magic, leader_status,
  record_cancelled, if_exited, exit_status, if_signaled, term_signal,
}

-- `waitpid` on the supervisor: it has ended with a status, it is no child any more (ECHILD), or
-- there is nothing to report.
pub data WaitAnswer : Type 0 where
  ended : ℕ → WaitAnswer
  no_child running : WaitAnswer

-- `pipe` holds the bytes that wait in the status pipe: none on an empty, ended or broken pipe.
-- `now` is the monotonic clock.
pub record Answers : Type 0 where
  pub wait : WaitAnswer
  pub pipe : Bytes
  pub now : Option ℕ

-- The first part: `none` is the early return, and the Boolean is `supervisor_ok`.
pub reap : Process → WaitAnswer → Option (Process × Bool)
reap p answer = if p.reaped then some (p, true) else elim answer [
  | running ↦ none
  | no_child ↦ some (record p { reaped = true }, false)
  | ended status ↦ some (record p { reaped = true }, if_exited status && (exit_status status == 0))
]

-- The bytes at an offset of the record, replaced by those that were read.
abbrev pub store : Bytes → ℕ → Bytes → Bytes
store bytes offset read = take offset bytes ++ (read ++ drop (offset + length read) bytes)

-- The second part: one `read` for what is missing of the record.
pub read_status : Process → Bytes → Process
read_status p pipe =
    let read = take (record_size - p.status_bytes) pipe in
    elim p.status_read [
      | none ↦ p
      | some descriptor ↦
          if ltb p.status_bytes record_size
          then record p {
            status_record = store p.status_record p.status_bytes read;
            status_bytes = p.status_bytes + length read;
          }
          else p
    ]

-- `process->status_record.magic = 0`
pub clear_magic : Process → Process
clear_magic p = record p { status_record = store p.status_record 0 (replicate 4 0) }

-- The outcome of a record that proves the end of all descendants.
pub conclude_proven : Process → Process
conclude_proven p =
    let status = leader_status p in
    let q = record p { wait_status = status } in
    if record_cancelled p == 0
    then (if if_exited status
        then record q {
          outcome = some (if exit_status status == 0 then Outcome.completed else Outcome.failed);
          exit_kind = some ExitKind.exit_code;
        }
        else if if_signaled status
        then record q {
          outcome = some Outcome.failed;
          exit_kind = some ExitKind.signal;
          signal_or_exception = some (term_signal status);
        }
        else record q { outcome = some Outcome.unknown; exit_kind = some ExitKind.outcome_unknown })
    else record q { outcome = some Outcome.cancelled; exit_kind = some ExitKind.cancelled }

abbrev pub proves : Process → Bool
proves p = (p.status_bytes == record_size) && (magic p == supervisor_magic)

pub conclude : Process → Option ℕ → Process
unfolding conclude_proven close_process_streams
conclude p now =
    let q = record p { finished_at = now; descendants_proven_stopped = proves p } in
    if proves p
    then conclude_proven q
    else close_process_streams
        (record q { outcome = some Outcome.unknown; exit_kind = some ExitKind.outcome_unknown })

-- All that follows the first part.
pub settle : Process → Bool → Answers → Process
unfolding read_status clear_magic conclude
settle p supervisor_ok answers =
    let q = read_status p answers.pipe in
    conclude (if supervisor_ok then q else clear_magic q) answers.now

abbrev after_reap : Process → Answers → Option (Process × Bool) → Process
after_reap p answers none = p
after_reap p answers (some (q, supervisor_ok)) = settle q supervisor_ok answers

abbrev settled : Process → Answers → Option Outcome → Process
settled p answers (some outcome) = p
settled p answers none = after_reap p answers (reap p answers.wait)

unfoldable pub refresh_posix_process : Process → Answers → Process
unfolding reap settle
refresh_posix_process p answers = settled p answers p.outcome
