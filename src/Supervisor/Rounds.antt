-- ===== src/Supervisor/Rounds.antt =====
-- The loop of `yaca_supervisor_run` behind the start of the leader. Each round's answers of the
-- system are arguments; what `yaca_supervisor_kill_children` returns is not used by the loop.
pub mod Proof
pub mod Input
use yaca.Base.{
  ℕ, ◌+◌, ◌-◌, Bool, true, false, ◌&&◌, ◌||◌, not, Option, none, some, List, [], ◌∷◌, ◌++◌, Bytes,
  length, take, drop, ltb, leb, ◌==◌, if◌then◌else◌,
}
use yaca.Supervisor.Message.{SupervisorResult, supervisor_magic}

-- `read` on the control pipe: a byte or the end of the pipe, nothing (EAGAIN), another error.
pub data ControlAnswer : Type 0 where
  received not_ready broken : ControlAnswer

-- What ends the loop of `waitpid`: children are left but none has ended (0), no child is left
-- (ECHILD), or another error.
pub data WaitEnd : Type 0 where
  children_left no_child wait_broken : WaitEnd

-- `write` of the input: a number of bytes, nothing now (EAGAIN, EINTR), or another error.
pub data WriteAnswer : Type 0 where
  wrote : ℕ → WriteAnswer
  not_now write_broken : WriteAnswer

pub record Child : Type 0 where
  pub process_id : ℕ
  pub status : ℕ

pub record Round : Type 0 where
  pub control : ControlAnswer
  pub interrupted : Bool
  pub reaped : List Child
  pub wait_end : WaitEnd
  pub write : WriteAnswer

-- `written` is the model's own: what was written to the leader's input.
pub record Supervisor : Type 0 where
  pub leader_status : ℕ
  pub leader_done : Bool
  pub cancelled : Bool
  pub input_open : Bool
  pub input_offset : ℕ
  pub written : Bytes

-- `finished` has the record that is sent before `_exit(0)`.
pub data Progress : Type 0 where
  continuing : Supervisor → Progress
  finished : Supervisor → SupervisorResult → Progress

abbrev pub ready : ControlAnswer → Bool
ready ControlAnswer.received = true
ready ControlAnswer.not_ready = false
ready ControlAnswer.broken = true

-- The round asks for the end.
abbrev pub asks_end : Round → Bool
asks_end round = ready round.control || round.interrupted

pub read_control : Round → Supervisor → Supervisor
read_control round s = if asks_end round then record s { cancelled = true } else s

pub note_child : ℕ → Child → Supervisor → Supervisor
note_child leader child s =
    if child.process_id == leader
    then record s { leader_status = child.status; leader_done = true }
    else s

-- The children that `waitpid` returns.
pub reap_children : ℕ → List Child → Supervisor → Supervisor
unfolding note_child
reap_children leader [] s = s
reap_children leader (child ∷ children) s =
    reap_children leader children (note_child leader child s)

abbrev pub is_no_child : WaitEnd → Bool
is_no_child WaitEnd.children_left = false
is_no_child WaitEnd.no_child = true
is_no_child WaitEnd.wait_broken = false

-- How many bytes one `write` takes: the kernel takes no more than it is given.
abbrev pub taken : ℕ → ℕ → ℕ
taken n rest = if leb n rest then n else rest

-- The input is closed at its end, or on an error of `write`.
pub close_input : Bool → Supervisor → Supervisor
close_input done s = if done then record s { input_open = false } else s

pub write_answered : Bytes → WriteAnswer → Supervisor → Supervisor
unfolding close_input
write_answered stdin (WriteAnswer.wrote n) s =
    let count = taken n (length stdin - s.input_offset) in
    let t = record s {
      input_offset = s.input_offset + count;
      written = s.written ++ take count (drop s.input_offset stdin);
    } in
    close_input (t.input_offset == length stdin) t
write_answered stdin WriteAnswer.not_now s = s
write_answered stdin WriteAnswer.write_broken s = close_input true s

pub write_input : Bytes → WriteAnswer → Supervisor → Supervisor
unfolding write_answered close_input
write_input stdin answer s =
    if ltb s.input_offset (length stdin)
    then write_answered stdin answer s
    else close_input (s.input_offset == length stdin) s

-- The end of a round that does not finish.
pub proceed : Bytes → WriteAnswer → Supervisor → Supervisor
unfolding write_input
proceed stdin answer s =
    if s.cancelled
    then record s { input_open = false }
    else if s.input_open
    then write_input stdin answer s
    else s

pub supervise_round : ℕ → Bytes → Round → Supervisor → Progress
unfolding read_control reap_children proceed
supervise_round leader stdin round s =
    let t = reap_children leader round.reaped (read_control round s) in
    if is_no_child round.wait_end && t.leader_done
    then finished t (record {
      magic = supervisor_magic;
      leader_status = t.leader_status;
      cancelled = t.cancelled;
    })
    else continuing (proceed stdin round.write t)

abbrev pub next_rounds : (Supervisor → Progress) → Progress → Progress
next_rounds rest (continuing s) = rest s
next_rounds rest (finished s r) = finished s r

-- The loop, over the rounds that the system answers.
unfoldable pub yaca_supervisor_run : ℕ → Bytes → List Round → Supervisor → Progress
unfolding supervise_round
yaca_supervisor_run leader stdin [] s = continuing s
yaca_supervisor_run leader stdin (round ∷ rounds) s =
    next_rounds (yaca_supervisor_run leader stdin rounds) (supervise_round leader stdin round s)
