-- ===== src/Process/State.antt =====
-- `yaca_process`, `push_process` and the closing of its descriptors; the error codes of
-- `errno_code`. The lengths of a status record are those of native/yaca_supervisor.h.
use yaca.Base.{
  ℕ, ◌+◌, ◌*◌, ◌/◌, ◌%◌, ◌^◌, Bool, true, false, Option, none, some, List, [], ◌∷◌, Bytes, get_or,
  replicate, ◌==◌, ◌||◌, if◌then◌else◌,
}

-- The strings of `outcome`; the empty string is `none` in the record below.
pub data Outcome : Type 0 where
  completed failed cancelled unknown : Outcome

-- The strings of `exit_kind`.
pub data ExitKind : Type 0 where
  exit_code signal cancelled outcome_unknown : ExitKind

-- `process->outcome[0] != '\0'`
abbrev pub is_decided : Option Outcome → Bool
is_decided none = false
is_decided (some outcome) = true

-- A descriptor is `none` where the source holds -1, and `finished_at` where it holds -1 because the
-- clock was not available. `released` is the model's own: the descriptors given to `close`, the
-- last one first.
pub record Process : Type 0 where
  pub process_id : Option ℕ
  pub stdout_read : Option ℕ
  pub stderr_read : Option ℕ
  pub control_write : Option ℕ
  pub status_read : Option ℕ
  pub status_bytes : ℕ
  pub status_record : Bytes
  pub wait_status : ℕ
  pub started_at : ℕ
  pub finished_at : Option ℕ
  pub reaped : Bool
  pub cancel_requested : Bool
  pub terminal_emitted : Bool
  pub descendants_proven_stopped : Bool
  pub closed : Bool
  pub outcome : Option Outcome
  pub exit_kind : Option ExitKind
  pub signal_or_exception : Option ℕ
  pub released : List ℕ

-- `sizeof(process->status_record)`: three fields of four bytes.
abbrev pub record_size : ℕ
record_size = 12

-- The structure that `push_process` fills in: nothing acquired yet.
unfoldable pub fresh_process : Process
fresh_process = record {
  process_id = none;
  stdout_read = none;
  stderr_read = none;
  control_write = none;
  status_read = none;
  status_bytes = 0;
  status_record = replicate record_size 0;
  wait_status = 0;
  started_at = 0;
  finished_at = some 0;
  reaped = false;
  cancel_requested = false;
  terminal_emitted = false;
  descendants_proven_stopped = false;
  closed = false;
  outcome = none;
  exit_kind = none;
  signal_or_exception = none;
  released = [];
}

-- `if (descriptor >= 0) close(descriptor)`, as the list of closed descriptors.
abbrev pub release : Option ℕ → List ℕ → List ℕ
release none closed = closed
release (some descriptor) closed = descriptor ∷ closed

unfoldable pub close_process_streams : Process → Process
close_process_streams p = record p {
  stdout_read = none;
  stderr_read = none;
  released = release p.stderr_read (release p.stdout_read p.released);
}

unfoldable pub close_process_handles : Process → Process
unfolding close_process_streams
close_process_handles p =
    let q = close_process_streams p in
    record q {
      control_write = none;
      status_read = none;
      closed = true;
      released = release q.status_read (release q.control_write q.released);
    }

-- The codes of `errno_code`.
pub data Code : Type 0 where
  not_found destination_exists access_denied directory_not_empty link_denied cross_device storage :
      Code
  limit would_block outcome_unknown : Code

-- The `errno` values are those of Linux: ENOENT 2, EEXIST 17, EACCES 13, EPERM 1, ENOTEMPTY 39,
-- ELOOP 40, EXDEV 18.
unfoldable pub errno_code : ℕ → Code
errno_code value =
    if value == 2
    then not_found
    else if value == 17
    then destination_exists
    else if (value == 13) || (value == 1)
    then access_denied
    else if value == 39
    then directory_not_empty
    else if value == 40
    then link_denied
    else if value == 18
    then cross_device
    else storage

-- An `int` or `uint32_t` that stands at an offset of the record, in the byte order of x86.
abbrev pub word_at : Bytes → ℕ → ℕ
word_at bytes offset =
    get_or bytes offset 0
    + get_or bytes (offset + 1) 0 * 2 ^ 8
    + get_or bytes (offset + 2) 0 * 2 ^ 16
    + get_or bytes (offset + 3) 0 * 2 ^ 24

abbrev pub magic : Process → ℕ
magic p = word_at p.status_record 0

abbrev pub leader_status : Process → ℕ
leader_status p = word_at p.status_record 4

abbrev pub record_cancelled : Process → ℕ
record_cancelled p = word_at p.status_record 8

-- WIFEXITED, WEXITSTATUS, WIFSIGNALED and WTERMSIG of a wait status.
abbrev pub if_exited : ℕ → Bool
if_exited status = status % 128 == 0

abbrev pub exit_status : ℕ → ℕ
exit_status status = status / 256 % 256

abbrev pub term_signal : ℕ → ℕ
term_signal status = status % 128

abbrev pub if_signaled : ℕ → Bool
if_signaled status =
    if status % 128 == 0 then false else if status % 128 == 127 then false else true
