-- ===== src/Process/Start/Outcome.antt =====
-- What a start leaves behind, by how it ended.
use yaca.Base.{
  ℕ, ◌+◌, Bool, true, false, Option, none, some, List, ◌∷◌, ◌≡◌, refl, arith, if◌then◌else◌,
}
use yaca.Base.Result.{Result, ok, err}
use yaca.Process.State.{Process, fresh_process}
use yaca.Process.Request.{Value}
use yaca.Process.Request.Environment.{Environment, build_posix_environment}
use yaca.Process.Start.Admit.{Refusal, Admitted, admit_request}
use yaca.Process.Start.Pipes.{Deed, component_arguments, environment, acquired}
use yaca.Process.Start.Launch.{Startup, StartAnswers, Attempt, close_in}
use yaca.Process.Start.{
  Reply, refusal, started, l_process_start, start_admitted, start_of, start_selected, finish_start,
  abort_start, is_component, acquired_arguments, wait_in, command_of, select,
}
use yaca.Process.Start.Balance.{Weights, gains, losses, weight_of, close_in-trace}
use yaca.Process.Start.Balance.Steps.{Balanced, After, Handed, acquire-After}

-- The weight of a process's descriptors and of its supervisor.
abbrev pub holds : Weights → Process → ℕ
holds w p =
    weight_of w.descriptor p.stdout_read
    + weight_of w.descriptor p.stderr_read
    + weight_of w.descriptor p.control_write
    + weight_of w.descriptor p.status_read
    + weight_of w.child p.process_id

-- After a refusal nothing is held; else what is held is the process's.
abbrev pub Settled : Weights → Reply → List Deed → Type 0
Settled w (refusal refused) trace = gains w trace ≡ losses w trace
Settled w (started p) trace = gains w trace ≡ losses w trace + holds w p

module _ (w : Weights) where
  abbrev owned : Bool → ℕ
  owned argv_mode = w.buffer environment + (if argv_mode then w.buffer component_arguments else 0)

  wait_in-trace :
      (child : Option ℕ) (trace : List Deed)
      → (gains w (wait_in child trace) ≡ gains w trace)
        × (losses w (wait_in child trace) ≡ losses w trace + weight_of w.child child)
  wait_in-trace none trace = (refl, omega arith)
  wait_in-trace (some child) trace = (refl, omega arith)

  abort_start-Settled :
      (argv_mode : Bool) (s : Startup)
      → Balanced w (owned argv_mode) s
      → gains w (abort_start argv_mode s) ≡ losses w (abort_start argv_mode s)
  unfolding abort_start
  abort_start-Settled argv_mode s b =
      let t0 = close_in s.control_pipe.read_end s.trace in
      let t1 = close_in s.control_pipe.write_end t0 in
      let t2 = close_in s.status_pipe.read_end t1 in
      let t3 = close_in s.status_pipe.write_end t2 in
      let t4 = wait_in s.child t3 in
      let t5 = close_in s.stdout_pipe.read_end t4 in
      let t6 = close_in s.stdout_pipe.write_end t5 in
      let t7 = close_in s.stderr_pipe.read_end t6 in
      let t8 = close_in s.stderr_pipe.write_end t7 in
      let t9 = close_in s.null_input t8 in
      let t10 = close_in s.stdin_pipe.read_end t9 in
      ground (
        arith,
        close_in-trace w s.control_pipe.read_end s.trace,
        close_in-trace w s.control_pipe.write_end t0,
        close_in-trace w s.status_pipe.read_end t1,
        close_in-trace w s.status_pipe.write_end t2,
        wait_in-trace s.child t3,
        close_in-trace w s.stdout_pipe.read_end t4,
        close_in-trace w s.stdout_pipe.write_end t5,
        close_in-trace w s.stderr_pipe.read_end t6,
        close_in-trace w s.stderr_pipe.write_end t7,
        close_in-trace w s.null_input t8,
        close_in-trace w s.stdin_pipe.read_end t9,
        close_in-trace w s.stdin_pipe.write_end t10,
      )

  finish_start-Settled :
      (argv_mode : Bool) (started_at : ℕ) (a : Attempt)
      → After w (owned argv_mode) (Handed w (owned argv_mode)) a
      → let r = finish_start argv_mode started_at a in Settled w r.reply r.trace
  unfolding finish_start fresh_process
  finish_start-Settled argv_mode started_at (err (s, error)) b = abort_start-Settled argv_mode s b
  finish_start-Settled true started_at (ok s) (b, h) = omega arith
  finish_start-Settled false started_at (ok s) (b, h) = omega arith

  start_selected-Settled :
      (answers : StartAnswers) (a : Admitted) (selected : List ℕ × List (Option (List ℕ)))
      (built : Option Environment)
      → let r = start_selected answers a selected built in Settled w r.reply r.trace
  unfolding start_selected
  start_selected-Settled answers a selected none = ground arith
  start_selected-Settled answers a selected (some built) =
      let argv_mode = is_component a.selection in
      let c = command_of a selected.0 selected.1 built.items in
      finish_start-Settled argv_mode a.started_at _ (
        acquire-After w (owned argv_mode) answers c
          (acquired environment ∷ acquired_arguments argv_mode) (ground arith))

  start_of-Settled :
      (answers : StartAnswers) (a : Admitted)
      (selected : Result Refusal (List ℕ × List (Option (List ℕ))))
      → let r = start_of answers a selected in Settled w r.reply r.trace
  unfolding start_of
  start_of-Settled answers a (err refused) = refl
  start_of-Settled answers a (ok selected) =
      start_selected-Settled answers a selected
        (build_posix_environment answers.environment_memory a.request)

  start_admitted-Settled :
      (answers : StartAnswers) (abandoned : List ℕ) (admitted : Result Refusal Admitted)
      → let r = (start_admitted answers abandoned admitted).0 in Settled w r.reply r.trace
  unfolding start_admitted
  start_admitted-Settled answers abandoned (err refused) = refl
  start_admitted-Settled answers abandoned (ok a) =
      start_of-Settled answers a (select answers a.request a.selection)

-- However a start ends and whatever the system answers, with any weights for descriptors, children
-- and buffers: if it is refused, the weight of all that it opened, forked and allocated is that of
-- all that it closed, waited for and freed; if a process comes of it, the difference is the weight
-- of the four descriptors and of the supervisor that the process holds.
pub l_process_start-Settled :
    (w : Weights) (answers : StartAnswers) (get : List ℕ → Value) (abandoned : List ℕ)
    → let r = (l_process_start answers get abandoned).0 in Settled w r.reply r.trace
unfolding l_process_start
l_process_start-Settled w answers get abandoned =
    start_admitted-Settled w answers abandoned (admit_request get)
