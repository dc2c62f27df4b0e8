-- ===== src/Process/Start/Balance/Steps.antt =====
-- What holds behind each step of a start: the balance, and which variables are still unset.
use yaca.Base.{
  ℕ, ◌+◌, Bool, true, false, ◌&&◌, Option, none, some, List, ◌∷◌, ◌==◌, ◌≡◌, refl, arith, if-both,
  length,
}
use yaca.Base.Result.{ok, err, ◌>>=◌}
use yaca.Process.State.{word_at}
use yaca.Process.Start.Pipes.{
  Command, Deed, non_blocking, FlagAnswers, supervised_pipe, move_up, set_descriptor_flags, opened,
  Answer,
}
use yaca.Process.Start.Launch.{
  Startup, StartAnswers, Attempt, unless_failed, flagged_end, open_outputs, open_controls,
  flag_pipes, open_input, open_null, put_null, pipe_stdout, pipe_stderr, pipe_stdin, pipe_control,
  pipe_status, close_in, close_child_ends, fork_child, read_report, acquire, initial, with_child,
}
use yaca.Process.Start.Balance.{
  Weights, gains, losses, weight_of, in_pipe, in_slots, flags-trace, move_up-trace,
  supervised_pipe-trace, close_in-trace,
}

-- `owned` is the weight of the buffers.
module _ (w : Weights) (owned : ℕ) where
  abbrev pub Balanced : Startup → Type 0
  Balanced s = gains w s.trace ≡ losses w s.trace + in_slots w s + owned

  -- What holds behind a step, by how it ended.
  abbrev pub After : (Startup → Type 0) → Attempt → Type 0
  After Q (ok s) = Balanced s × Q s
  After Q (err (s, error)) = Balanced s

  >>=-After :
      (Q R : Startup → Type 0) (a : Attempt) (f : Startup → Attempt)
      → After Q a
      → ((s : Startup) → Balanced s → Q s → After R (f s))
      → After R (a >>= f)
  >>=-After Q R (ok s) f h k = k s h.0 h.1
  >>=-After Q R (err (s, error)) f h k = h

  unless_failed-After :
      (Q : Startup → Type 0) (s : Startup) (error : Option ℕ)
      → Balanced s
      → Q s
      → After Q (unless_failed s error)
  unless_failed-After Q s none b q = (b, q)
  unless_failed-After Q s (some error) b q = b

  -- What no step has filled in yet.
  record Untouched (s : Startup) : Type 0 where
    input : in_pipe w s.stdin_pipe ≡ 0
    null_input : weight_of w.descriptor s.null_input ≡ 0
    child : weight_of w.child s.child ≡ 0

  record BeforeControls (s : Startup) : Type 0 where
    rest : Untouched s
    control : in_pipe w s.control_pipe ≡ 0
    status : in_pipe w s.status_pipe ≡ 0

  open_outputs-After :
      (answers : StartAnswers) (s : Startup)
      → Balanced s
      → in_slots w s ≡ 0
      → After BeforeControls (open_outputs answers s)
  unfolding open_outputs
  open_outputs-After answers s b h =
      let out = supervised_pipe answers.stdout_pipe s.trace in
      let Stage = λ (s : Startup). BeforeControls s × (in_pipe w s.stderr_pipe ≡ 0) in
      >>=-After Stage BeforeControls (unless_failed (pipe_stdout out s) out.error) _
        (unless_failed-After Stage (pipe_stdout out s) out.error
          (ground (arith, supervised_pipe-trace w answers.stdout_pipe s.trace)) (ground arith))
        λ t c k.
          let errors = supervised_pipe answers.stderr_pipe t.trace in
          unless_failed-After BeforeControls (pipe_stderr errors t) errors.error
            (ground (arith, supervised_pipe-trace w answers.stderr_pipe t.trace)) (ground arith)

  open_controls-After :
      (answers : StartAnswers) (s : Startup)
      → Balanced s
      → BeforeControls s
      → After Untouched (open_controls answers s)
  unfolding open_controls
  open_controls-After answers s b h =
      let control = supervised_pipe answers.control_pipe s.trace in
      let Stage = λ (s : Startup). Untouched s × (in_pipe w s.status_pipe ≡ 0) in
      >>=-After Stage Untouched (unless_failed (pipe_control control s) control.error) _
        (unless_failed-After Stage (pipe_control control s) control.error
          (ground (arith, supervised_pipe-trace w answers.control_pipe s.trace)) (ground arith))
        λ t c k.
          let status = supervised_pipe answers.status_pipe t.trace in
          unless_failed-After Untouched (pipe_status status t) status.error
            (ground (arith, supervised_pipe-trace w answers.status_pipe t.trace)) (ground arith)

  flagged_end-After :
      (Q : Startup → Type 0) (answers : FlagAnswers) (slot : Option ℕ) (s : Startup)
      → ((trace : List Deed) → Q (record s { trace = trace }))
      → Balanced s
      → After Q (flagged_end answers slot s)
  flagged_end-After Q answers none s keeps b = (b, keeps s.trace)
  flagged_end-After Q answers (some e) s keeps b =
      let f = set_descriptor_flags answers non_blocking e s.trace in
      unless_failed-After Q (record s { trace = f.1 }) f.0
        (ground (arith, flags-trace w answers non_blocking e s.trace)) (keeps f.1)

  flag_pipes-After :
      (answers : StartAnswers) (s : Startup)
      → Balanced s
      → Untouched s
      → After Untouched (flag_pipes answers s)
  unfolding flag_pipes
  flag_pipes-After answers s b h =
      let step = flagged_end-After Untouched in
      >>=-After Untouched Untouched (flagged_end answers.stdout_flags s.stdout_pipe.read_end s) _
        (step answers.stdout_flags s.stdout_pipe.read_end s (λ trace. ground arith) b)
        λ t c k.
          >>=-After Untouched Untouched (flagged_end answers.stderr_flags t.stderr_pipe.read_end t)
            _ (step answers.stderr_flags t.stderr_pipe.read_end t (λ trace. ground arith) c)
            λ u d l. step answers.control_flags u.control_pipe.read_end u (λ trace. ground arith) d

  abbrev Childless : Startup → Type 0
  Childless s = weight_of w.child s.child ≡ 0

  open_null-After :
      (answers : StartAnswers) (answer : Answer ℕ) (s : Startup)
      → Balanced s
      → Untouched s
      → After Childless (open_null answers answer s)
  unfolding move_up
  open_null-After answers (err error) s b h = b
  open_null-After answers (ok e) s b h =
      let m = move_up answers.null_moved e (opened e ∷ s.trace) in
      unless_failed-After Childless (put_null s m) m.error
        (ground (arith, move_up-trace w answers.null_moved e (opened e ∷ s.trace))) (ground arith)

  open_input-After :
      (answers : StartAnswers) (argv_mode : Bool) (s : Startup)
      → Balanced s
      → Untouched s
      → After Childless (open_input answers argv_mode s)
  unfolding open_input
  open_input-After answers false s b h = open_null-After answers answers.null_input s b h
  open_input-After answers true s b h =
      let input = supervised_pipe answers.stdin_pipe s.trace in
      >>=-After Childless Childless (unless_failed (pipe_stdin input s) input.error) _
        (unless_failed-After Childless (pipe_stdin input s) input.error
          (ground (arith, supervised_pipe-trace w answers.stdin_pipe s.trace)) (ground arith))
        λ t c k.
          flagged_end-After Childless answers.stdin_flags t.stdin_pipe.write_end t (λ trace. k) c

  -- Only the parent's ends are open.
  abbrev pub Handed : Startup → Type 0
  Handed s =
      in_slots w s
      ≡ weight_of w.descriptor s.stdout_pipe.read_end
        + weight_of w.descriptor s.stderr_pipe.read_end
        + weight_of w.descriptor s.control_pipe.write_end
        + weight_of w.descriptor s.status_pipe.read_end
        + weight_of w.child s.child

  close_child_ends-Balanced :
      (s : Startup) → Balanced s → Balanced (close_child_ends s) × Handed (close_child_ends s)
  unfolding close_child_ends
  close_child_ends-Balanced s b =
      let t0 = close_in s.control_pipe.read_end s.trace in
      let t1 = close_in s.status_pipe.write_end t0 in
      let t2 = close_in s.stdout_pipe.write_end t1 in
      let t3 = close_in s.stderr_pipe.write_end t2 in
      let t4 = close_in s.stdin_pipe.read_end t3 in
      let t5 = close_in s.stdin_pipe.write_end t4 in
      let c0 = close_in-trace w s.control_pipe.read_end s.trace in
      let c1 = close_in-trace w s.status_pipe.write_end t0 in
      let c2 = close_in-trace w s.stdout_pipe.write_end t1 in
      let c3 = close_in-trace w s.stderr_pipe.write_end t2 in
      let c4 = close_in-trace w s.stdin_pipe.read_end t3 in
      let c5 = close_in-trace w s.stdin_pipe.write_end t4 in
      let c6 = close_in-trace w s.null_input t5 in
      (
        omega (
          arith, c0.0, c0.1, c1.0, c1.1, c2.0, c2.1, c3.0, c3.1, c4.0, c4.1, c5.0, c5.1, c6.0, c6.1,
          b,
        ),
        omega arith,
      )

  fork_child-After :
      (c : Command) (answer : Answer ℕ) (s : Startup)
      → Balanced s
      → Childless s
      → After Handed (fork_child c answer s)
  unfolding fork_child
  fork_child-After c (err error) s b h = b
  fork_child-After c (ok child) s b h =
      close_child_ends-Balanced (with_child c child s) (ground arith)

  read_report-After :
      (flags : FlagAnswers) (answer : Answer (List ℕ)) (s : Startup)
      → Balanced s
      → Handed s
      → After Handed (read_report flags answer s)
  unfolding read_report
  read_report-After flags (err error) s b h = b
  read_report-After flags (ok bytes) s b h =
      if-both (After Handed) ((length bytes == 4) && (word_at bytes 0 == 0))
        (flagged_end-After Handed flags s.status_pipe.read_end s (λ trace. h) b) b

  pub acquire-After :
      (answers : StartAnswers) (c : Command) (trace : List Deed)
      → gains w trace ≡ losses w trace + owned
      → After Handed (acquire answers c trace)
  unfolding acquire
  acquire-After answers c trace h =
      >>=-After BeforeControls Handed (open_outputs answers (initial trace)) _
        (open_outputs-After answers (initial trace) (omega arith) refl)
        λ s b k.
          >>=-After Untouched Handed (open_controls answers s) _ (open_controls-After answers s b k)
            λ s b k.
              >>=-After Untouched Handed (flag_pipes answers s) _ (flag_pipes-After answers s b k)
                λ s b k.
                  >>=-After Childless Handed (open_input answers c.argv_mode s) _
                    (open_input-After answers c.argv_mode s b k)
                    λ s b k.
                      >>=-After Handed Handed (fork_child c answers.fork s) _
                        (fork_child-After c answers.fork s b k)
                        λ s b k. read_report-After answers.status_flags answers.report s b k
