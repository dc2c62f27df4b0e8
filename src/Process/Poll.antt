-- ===== src/Process/Poll.antt =====
-- `read_posix_process_stream` and `l_process_poll` on POSIX systems. The answers of `read` are
-- arguments; Lua's requests for memory are taken to succeed.
pub mod Preserve
pub mod Events
use yaca.Base.{
  ℕ, zero, suc, Bool, true, false, ◌&&◌, Option, none, some, List, [], ◌∷◌, ◌++◌, Bytes, length,
  take, ltb, leb, if◌then◌else◌, not,
}
use yaca.Base.Int.{ℤ, pos, negsuc}
use yaca.Process.State.{Outcome, Process, Code, errno_code, release}
use yaca.Process.Refresh.{Answers, refresh_posix_process}

pub data Stream : Type 0 where
  stdout stderr : Stream

-- What `read` finds, after its interruptions: bytes (the first one and the others), the end of the
-- stream, nothing yet (EAGAIN), or another `errno`.
pub data ReadAnswer : Type 0 where
  holds : ℕ → Bytes → ReadAnswer
  ended not_ready : ReadAnswer
  broken : ℕ → ReadAnswer

-- The results 1 with the chunk, 0, and -1 with `errno`.
pub data ReadResult : Type 0 where
  chunk : Bytes → ReadResult
  nothing : ReadResult
  failed : ℕ → ReadResult

pub data Event : Type 0 where
  output : Stream → Bytes → Event
  terminal : Outcome → Event

abbrev pub stream_of : Stream → Process → Option ℕ
stream_of stdout p = p.stdout_read
stream_of stderr p = p.stderr_read

-- `close(*stream); *stream = -1;`
abbrev pub close_stream : Stream → Process → Process
close_stream stdout p = record p { stdout_read = none; released = release p.stdout_read p.released }
close_stream stderr p = record p { stderr_read = none; released = release p.stderr_read p.released }

pub read_answered : Stream → ℕ → Process → Option ℕ → ReadAnswer → Process × ReadResult
read_answered stream maximum p none answer = (p, nothing)
read_answered stream maximum p (some descriptor) (holds byte bytes) =
    (p, chunk (take maximum (byte ∷ bytes)))
read_answered stream maximum p (some descriptor) ended = (close_stream stream p, nothing)
read_answered stream maximum p (some descriptor) not_ready = (p, nothing)
read_answered stream maximum p (some descriptor) (broken errno) = (p, failed errno)

unfoldable pub read_posix_process_stream : Stream → ℕ → ReadAnswer → Process → Process × ReadResult
unfolding read_answered
read_posix_process_stream stream maximum answer p =
    read_answered stream maximum p (stream_of stream p) answer

-- A poll on its way: the events so far, or the failure that ended it.
pub data Progress : Type 0 where
  going : Process → List Event → Progress
  stopped : Process → Code → Progress

pub collect : Stream → List Event → Process × ReadResult → Progress
collect stream events (p, chunk bytes) = going p (events ++ (output stream bytes ∷ []))
collect stream events (p, nothing) = going p events
collect stream events (p, failed errno) = stopped p (errno_code errno)

-- One of the first two reads.
pub read_stage : Stream → ℕ → ℕ → ReadAnswer → Progress → Progress
unfolding collect read_posix_process_stream
read_stage stream budget maximum answer (stopped p code) = stopped p code
read_stage stream budget maximum answer (going p events) =
    if ltb (length events) budget
    then collect stream events (read_posix_process_stream stream maximum answer p)
    else going p events

pub refresh_stage : Answers → Progress → Progress
refresh_stage answers (stopped p code) = stopped p code
refresh_stage answers (going p events) = going (refresh_posix_process p answers) events

abbrev pub is_open : Option ℕ → Bool
is_open none = false
is_open (some descriptor) = true

-- A read after the refresh, of a process that is reaped.
pub drain_stage : Stream → ℕ → ℕ → ReadAnswer → Progress → Progress
unfolding collect read_posix_process_stream
drain_stage stream budget maximum answer (stopped p code) = stopped p code
drain_stage stream budget maximum answer (going p events) =
    if p.reaped && (is_open (stream_of stream p) && ltb (length events) budget)
    then collect stream events (read_posix_process_stream stream maximum answer p)
    else going p events

-- The conditions for a terminal event, but that there is an outcome.
abbrev pub terminal_due : ℕ → Process → List Event → Bool
terminal_due budget p events =
    p.reaped
    && (ltb (length events) budget
        && (not (is_open p.stdout_read) && (not (is_open p.stderr_read) && not p.terminal_emitted)))

abbrev pub emit : ℕ → Process → List Event → Option Outcome → Progress
emit budget p events none = going p events
emit budget p events (some outcome) =
    if terminal_due budget p events
    then going (record p { terminal_emitted = true }) (events ++ (terminal outcome ∷ []))
    else going p events

-- The terminal event.
pub terminal_stage : ℕ → Progress → Progress
terminal_stage budget (stopped p code) = stopped p code
terminal_stage budget (going p events) = emit budget p events p.outcome

-- The answers that one poll meets, in the order of its calls.
pub record PollAnswers : Type 0 where
  pub read_stdout : ReadAnswer
  pub read_stderr : ReadAnswer
  pub refresh : Answers
  pub drain_stdout : ReadAnswer
  pub drain_stderr : ReadAnswer

-- The part behind the tests of the limits.
pub poll_within : ℕ → ℕ → PollAnswers → Process → Progress
unfolding read_stage refresh_stage drain_stage terminal_stage
poll_within budget maximum answers p = terminal_stage budget (
    drain_stage stderr budget maximum answers.drain_stderr (
      drain_stage stdout budget maximum answers.drain_stdout (
        refresh_stage answers.refresh (
          read_stage stderr budget maximum answers.read_stderr
            (read_stage stdout budget maximum answers.read_stdout (going p []))))))

abbrev pub size_max : ℕ
size_max = 0xffffffffffffffff

-- `budget_value` and `maximum_value` are the third and the fourth argument.
unfoldable pub l_process_poll : ℤ → ℤ → PollAnswers → Process → Progress
unfolding poll_within
l_process_poll (negsuc budget) maximum answers p = stopped p Code.limit
l_process_poll (pos budget) (negsuc maximum) answers p = stopped p Code.limit
l_process_poll (pos budget) (pos zero) answers p = stopped p Code.limit
l_process_poll (pos budget) (pos (suc maximum)) answers p =
    if ltb size_max budget
    then stopped p Code.limit
    else if ltb size_max (suc maximum)
    then stopped p Code.limit
    else poll_within budget (suc maximum) answers p
