-- ===== src/Process/Calls.antt =====
-- The other Lua functions over a `yaca_process` on POSIX systems: cancel, join, close and the
-- finalizer, the list of supervisors that the finalizer abandons, and one call after another.
pub mod Preserve
pub mod Once
pub mod Descriptors
pub mod Truth
pub mod Verdict
pub mod Abandoned
mod Examples
use yaca.Base.{
  ℕ, zero, suc, ◌-◌, Bool, true, false, ◌||◌, not, Option, none, some, List, [], ◌∷◌, ◌++◌, leb,
  if◌then◌else◌,
}
use yaca.Base.Int.{ℤ}
use yaca.Process.State.{
  fresh_process, Outcome, ExitKind, Process, Code, close_process_handles, exit_status, release,
  is_decided,
}
use yaca.Process.Refresh.{WaitAnswer, Answers, refresh_posix_process}
use yaca.Process.Poll.{Event, PollAnswers, Progress, going, stopped, l_process_poll}

-- The table of `push_process_result`; an absent field is `none`.
pub record ProcessResult : Type 0 where
  pub outcome : Option Outcome
  pub exit_kind : Option ExitKind
  pub exit_code : Option ℕ
  pub signal_or_exception : Option ℕ
  pub duration_ms : ℕ
  pub descendants_proven_stopped : Bool

abbrev duration : ℕ → Option ℕ → ℕ
duration started_at none = 0
duration started_at (some finished_at) =
    if leb started_at finished_at then finished_at - started_at else 0

abbrev exit_code_of : Option ExitKind → ℕ → Option ℕ
exit_code_of (some ExitKind.exit_code) status = some (exit_status status)
exit_code_of kind status = none

unfoldable pub push_process_result : Process → ProcessResult
push_process_result p = record {
  outcome = p.outcome;
  exit_kind = p.exit_kind;
  exit_code = exit_code_of p.exit_kind p.wait_status;
  signal_or_exception = p.signal_or_exception;
  duration_ms = duration p.started_at p.finished_at;
  descendants_proven_stopped = p.descendants_proven_stopped;
}

-- What a call gives to Lua.
pub data Reply : Type 0 where
  raised_closed acknowledged nothing : Reply
  failure : Code → Reply
  events : List Event → Reply
  requested : Bool → Reply
  result : ProcessResult → Reply

-- `process->control_write` closed where it is open.
abbrev pub close_control : Process → Process
close_control p = record p { control_write = none; released = release p.control_write p.released }

-- `check_process` raises on a closed process.
abbrev pub check_process : Process → Process × Reply → Process × Reply
check_process p answered = if p.closed then (p, raised_closed) else answered

unfoldable pub l_process_cancel : Answers → Process → Process × Reply
l_process_cancel answers p =
    let q = refresh_posix_process p answers in
    if is_decided p.outcome
    then (p, requested false)
    else if is_decided q.outcome
    then (q, requested false)
    else (record (close_control q) { cancel_requested = true }, requested true)

-- What a join answers behind its refresh.
abbrev pub joined : Process → Process × Reply
joined q =
    if not q.reaped || not (is_decided q.outcome)
    then (q, failure Code.would_block)
    else (q, result (push_process_result q))

unfoldable pub l_process_join : Answers → Process → Process × Reply
unfolding push_process_result
l_process_join answers p = check_process p (joined (refresh_posix_process p answers))

unfoldable pub l_process_close : Process → Process × Reply
l_process_close p =
    if not p.reaped || not (is_decided p.outcome)
    then (p, failure Code.outcome_unknown)
    else (close_process_handles p, acknowledged)

-- The finalizer's loop of `refresh_posix_process`, with a pause behind each; `answers i` are those
-- of round i.
pub attempts : ℕ → (ℕ → Answers) → Process → Process
attempts zero answers p = p
attempts (suc rounds) answers p =
    let rest = attempts rounds (λ i. answers (suc i)) (refresh_posix_process p (answers 0)) in
    if p.reaped then p else rest

abbrev pub attempt_limit : ℕ
attempt_limit = 100

-- `memory` tells whether `malloc` gives the item.
pub record CollectAnswers : Type 0 where
  pub refresh : ℕ → Answers
  pub memory : Bool

-- `abandoned_supervisors` with the supervisor of a process that did not end.
abbrev abandon : Bool → Bool → Option ℕ → List ℕ → List ℕ
abandon false true (some process_id) abandoned = process_id ∷ abandoned
abandon reaped memory process_id abandoned = abandoned

-- What is left to do for a process with a supervisor and no outcome.
pub abandon_or_reap : CollectAnswers → List ℕ → Process → Process × List ℕ
unfolding attempts
abandon_or_reap answers abandoned p =
    let q = attempts attempt_limit answers.refresh (close_control p) in
    (q, abandon q.reaped answers.memory q.process_id abandoned)

pub collected : CollectAnswers → List ℕ → Process → Option ℕ → Option Outcome → Process × List ℕ
collected answers abandoned p none outcome = (p, abandoned)
collected answers abandoned p (some process_id) (some outcome) = (p, abandoned)
collected answers abandoned p (some process_id) none = abandon_or_reap answers abandoned p

unfoldable pub l_process_gc : CollectAnswers → List ℕ → Process → Process × List ℕ
unfolding collected
l_process_gc answers abandoned p =
    let finished = collected answers abandoned p p.process_id p.outcome in
    if p.closed then (p, abandoned) else (close_process_handles finished.0, finished.1)

abbrev pub is_gone : WaitAnswer → Bool
is_gone (WaitAnswer.ended status) = true
is_gone WaitAnswer.no_child = true
is_gone WaitAnswer.running = false

-- `waitpid` of each supervisor is an argument.
unfoldable pub reap_abandoned_supervisors : (ℕ → WaitAnswer) → List ℕ → List ℕ
reap_abandoned_supervisors wait [] = []
reap_abandoned_supervisors wait (pid ∷ pids) =
    let rest = reap_abandoned_supervisors wait pids in
    if is_gone (wait pid) then rest else pid ∷ rest

-- The new process, and the abandoned supervisors that are left.
unfoldable pub push_process : (ℕ → WaitAnswer) → List ℕ → Process × List ℕ
unfolding reap_abandoned_supervisors fresh_process
push_process wait abandoned = (fresh_process, reap_abandoned_supervisors wait abandoned)

-- The calls on one process.
pub data Call : Type 0 where
  poll : ℤ → ℤ → PollAnswers → Call
  cancel join : Answers → Call
  close : Call
  gc : CollectAnswers → Call

abbrev pub poll_reply : Progress → Process × Reply
poll_reply (going p delivered) = (p, events delivered)
poll_reply (stopped p code) = (p, failure code)

pub perform : Process → Call → Process × Reply
unfolding l_process_cancel l_process_join l_process_close l_process_gc l_process_poll
perform p (poll budget maximum answers) =
    check_process p (poll_reply (l_process_poll budget maximum answers p))
perform p (cancel answers) = check_process p (l_process_cancel answers p)
perform p (join answers) = l_process_join answers p
perform p close = check_process p (l_process_close p)
perform p (gc answers) = ((l_process_gc answers [] p).0, nothing)

pub perform_all : Process → List Call → Process
perform_all p [] = p
perform_all p (call ∷ calls) = perform_all (perform p call).0 calls

abbrev pub delivered : Reply → List Event
delivered (events list) = list
delivered reply = []

-- All events that a sequence of calls delivers.
pub delivered_all : Process → List Call → List Event
delivered_all p [] = []
delivered_all p (call ∷ calls) =
    delivered (perform p call).1 ++ delivered_all (perform p call).0 calls
