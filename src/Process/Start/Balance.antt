-- ===== src/Process/Start/Balance.antt =====
-- What the steps of a start acquire and give back: everything that was acquired is given back or
-- stands in a variable.
pub mod Steps
use yaca.Base.{
  ℕ, ◌+◌, Bool, true, false, ◌&&◌, Option, none, some, List, [], ◌∷◌, ◌==◌, ◌≡◌, refl, arith,
  if◌then◌else◌, if-both, length,
}
use yaca.Base.Result.{Result, ok, err, ◌>>=◌}
use yaca.Process.State.{word_at}
use yaca.Process.Start.Pipes.{
  Command, Deed, Flag, non_blocking, Buffer, Pipe, PipeAnswers, PipeResult, EndAnswers, FlagAnswers,
  Moved, supervised_pipe, pipe_end, pipe_of, move_up, set_descriptor_flags, opened, closed,
  acquired, freed, forked, waited, Answer,
}
use yaca.Process.Start.Launch.{
  Startup, StartAnswers, Attempt, unless_failed, flagged_end, open_outputs, open_controls,
  flag_pipes, open_input, open_null, put_null, null_moved, pipe_stdout, pipe_stderr, pipe_stdin,
  pipe_control, pipe_status, close_in, close_child_ends, fork_child, read_report, acquire, initial,
  with_child,
}

-- A weight for each descriptor, child and buffer.
pub record Weights : Type 0 where
  pub descriptor : ℕ → ℕ
  pub child : ℕ → ℕ
  pub buffer : Buffer → ℕ

-- The weight of all that was acquired, and of all that was given back.
abbrev pub gains : Weights → List Deed → ℕ
gains w [] = 0
gains w (opened e ∷ trace) = w.descriptor e + gains w trace
gains w (forked p launch ∷ trace) = w.child p + gains w trace
gains w (acquired b ∷ trace) = w.buffer b + gains w trace
gains w (event ∷ trace) = gains w trace

abbrev pub losses : Weights → List Deed → ℕ
losses w [] = 0
losses w (closed e ∷ trace) = w.descriptor e + losses w trace
losses w (waited p ∷ trace) = w.child p + losses w trace
losses w (freed b ∷ trace) = w.buffer b + losses w trace
losses w (event ∷ trace) = losses w trace

abbrev pub weight_of : (ℕ → ℕ) → Option ℕ → ℕ
weight_of weight none = 0
weight_of weight (some e) = weight e

abbrev pub in_pipe : Weights → Pipe → ℕ
in_pipe w pipe = weight_of w.descriptor pipe.read_end + weight_of w.descriptor pipe.write_end

abbrev pub in_slots : Weights → Startup → ℕ
in_slots w s =
    in_pipe w s.stdout_pipe
    + in_pipe w s.stderr_pipe
    + in_pipe w s.stdin_pipe
    + in_pipe w s.control_pipe
    + in_pipe w s.status_pipe
    + weight_of w.descriptor s.null_input
    + weight_of w.child s.child

module _ (w : Weights) where
  pub flags-trace :
      (answers : FlagAnswers) (flag : Flag) (e : ℕ) (trace : List Deed)
      → let after = (set_descriptor_flags answers flag e trace).1 in
        (gains w after ≡ gains w trace) × (losses w after ≡ losses w trace)
  unfolding set_descriptor_flags
  flags-trace answers flag e trace = ground arith

  -- One descriptor is exchanged for another.
  pub move_up-trace :
      (answer : Answer ℕ) (e : ℕ) (trace : List Deed)
      → let m = move_up answer e trace in
        gains w m.trace + losses w trace + w.descriptor e
        ≡ losses w m.trace + gains w trace + w.descriptor m.descriptor
  unfolding move_up
  move_up-trace answer e trace = ground arith

  pipe_end-trace :
      (answers : EndAnswers) (e : ℕ) (trace : List Deed)
      → let m = pipe_end answers e trace in
        gains w m.trace + losses w trace + w.descriptor e
        ≡ losses w m.trace + gains w trace + w.descriptor m.descriptor
  unfolding pipe_end
  pipe_end-trace answers e trace =
      let m = move_up answers.moved e trace in
      ground (
        arith,
        move_up-trace answers.moved e trace,
        flags-trace answers.flags Flag.close_on_exec m.descriptor m.trace,
      )

  pipe_of-trace :
      (answers : PipeAnswers) (answer : Answer (ℕ × ℕ)) (trace : List Deed)
      → let r = pipe_of answers answer trace in
        gains w r.trace + losses w trace ≡ losses w r.trace + gains w trace + in_pipe w r.pipe
  unfolding pipe_of
  pipe_of-trace answers (err error) trace = omega arith
  pipe_of-trace answers (ok (read, write)) trace =
      let t = opened write ∷ opened read ∷ trace in
      let first = pipe_end answers.read_end read t in
      ground (
        arith,
        pipe_end-trace answers.read_end read t,
        pipe_end-trace answers.write_end write first.trace,
      )

  pub supervised_pipe-trace :
      (answers : PipeAnswers) (trace : List Deed)
      → let r = supervised_pipe answers trace in
        gains w r.trace + losses w trace ≡ losses w r.trace + gains w trace + in_pipe w r.pipe
  unfolding supervised_pipe
  supervised_pipe-trace answers trace = pipe_of-trace answers answers.pipe trace

  pub close_in-trace :
      (slot : Option ℕ) (trace : List Deed)
      → (gains w (close_in slot trace) ≡ gains w trace)
        × (losses w (close_in slot trace) ≡ losses w trace + weight_of w.descriptor slot)
  close_in-trace none trace = (refl, omega arith)
  close_in-trace (some e) trace = (refl, omega arith)
