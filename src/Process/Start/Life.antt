-- ===== src/Process/Start/Life.antt =====
-- A start and the life of its process behind it.
use yaca.Base.{
  ℕ, ◌+◌, Bool, true, false, Option, none, some, List, [], ◌==◌, ◌≡◌, refl, arith, subst,
  if◌then◌else◌, Bytes,
}
use yaca.Base.Result.{Result, ok, err}
use yaca.Process.State.{Process, fresh_process}
use yaca.Process.Request.{Value}
use yaca.Process.Request.Environment.{Environment}
use yaca.Process.Calls.{perform_all, Call, l_process_gc, CollectAnswers}
use yaca.Process.Calls.Descriptors.{count, count_held, held, gc-perform_all-held}
use yaca.Process.Start.Admit.{Admitted, admit_request, Refusal}
use yaca.Process.Start.Pipes.{Deed}
use yaca.Process.Start.Launch.{StartAnswers, Attempt}
use yaca.Process.Start.{
  Reply, refusal, started, l_process_start, start_admitted, start_of, start_selected, finish_start,
}
use yaca.Process.Start.Balance.{Weights, gains, losses, weight_of}
use yaca.Process.Start.Outcome.{Settled, holds, l_process_start-Settled}

-- A process that no call has reached yet.
record IsFresh (p : Process) : Type 0 where
  open_still : p.closed ≡ false
  nothing_released : p.released ≡ []

data Fresh : Reply → Type 0 where
  none_started : (refused : Refusal) → Fresh (refusal refused)
  one_started : (p : Process) → IsFresh p → Fresh (started p)

finish_start-Fresh :
    (argv_mode : Bool) (started_at : ℕ) (a : Attempt)
    → Fresh (finish_start argv_mode started_at a).reply
unfolding finish_start fresh_process
finish_start-Fresh argv_mode started_at (ok s) =
    one_started _ (record { open_still = refl; nothing_released = refl })
finish_start-Fresh argv_mode started_at (err (s, error)) = none_started _

start_selected-Fresh :
    (answers : StartAnswers) (a : Admitted) (selected : Bytes × List (Option Bytes))
    (built : Option Environment)
    → Fresh (start_selected answers a selected built).reply
unfolding start_selected
start_selected-Fresh answers a selected none = none_started _
start_selected-Fresh answers a selected (some e) = finish_start-Fresh _ _ _

start_of-Fresh :
    (answers : StartAnswers) (a : Admitted)
    (selected : Result Refusal (Bytes × List (Option Bytes)))
    → Fresh (start_of answers a selected).reply
unfolding start_of
start_of-Fresh answers a (err refused) = none_started _
start_of-Fresh answers a (ok selected) = start_selected-Fresh answers a selected _

start_admitted-Fresh :
    (answers : StartAnswers) (abandoned : List ℕ) (admitted : Result Refusal Admitted)
    → Fresh (start_admitted answers abandoned admitted).0.reply
unfolding start_admitted
start_admitted-Fresh answers abandoned (err refused) = none_started _
start_admitted-Fresh answers abandoned (ok a) = start_of-Fresh answers a _

start_Fresh :
    (answers : StartAnswers) (get : Bytes → Value) (abandoned : List ℕ)
    → Fresh (l_process_start answers get abandoned).0.reply
unfolding l_process_start
start_Fresh answers get abandoned = start_admitted-Fresh answers abandoned (admit_request get)

Fresh→IsFresh : (p : Process) (reply : Reply) → Fresh reply → reply ≡ started p → IsFresh p
Fresh→IsFresh p (refusal refused) fresh h = grind (arith, h)
Fresh→IsFresh p (started q) (one_started r fresh) h = grind (arith, h, fresh)

-- One descriptor counts, and nothing else.
abbrev pub one_descriptor : ℕ → Weights
one_descriptor d = record {
  descriptor = λ e. if d == e then 1 else 0;
  child = λ p. 0;
  buffer = λ b. 0;
}

weight_of-count :
    (d : ℕ) (o : Option ℕ) → weight_of (one_descriptor d).descriptor o ≡ count_held d o
weight_of-count d none = refl
weight_of-count d (some e) = refl

no_weight : (o : Option ℕ) → weight_of (λ p. 0) o ≡ 0
no_weight none = refl
no_weight (some p) = refl

held-holds : (d : ℕ) (p : Process) → holds (one_descriptor d) p ≡ held d p
held-holds d p = omega (
  arith,
  weight_of-count d p.stdout_read,
  weight_of-count d p.stderr_read,
  weight_of-count d p.control_write,
  weight_of-count d p.status_read,
  no_weight p.process_id,
)

started-Settled :
    (w : Weights) (p : Process) (reply : Reply) (trace : List Deed)
    → Settled w reply trace
    → reply ≡ started p
    → gains w trace ≡ losses w trace + holds w p
started-Settled w p reply trace h e = subst (λ r. Settled w r trace) e h

-- If a start gives a process: after any calls on it, whatever the system answers, and then its
-- finalizer, the process is closed, and each descriptor that the start has opened was closed as
-- often, by the start or behind it.
pub l_process_start-gc :
    (answers : StartAnswers) (get : Bytes → Value) (abandoned : List ℕ) (p : Process)
    (calls : List Call) (collection : CollectAnswers) (d : ℕ)
    → (l_process_start answers get abandoned).0.reply ≡ started p
    → let trace = (l_process_start answers get abandoned).0.trace in
      let q = (l_process_gc collection [] (perform_all p calls)).0 in
      (q.closed ≡ true)
      × (gains (one_descriptor d) trace ≡ losses (one_descriptor d) trace + count d q.released)
l_process_start-gc answers get abandoned p calls collection d h =
    let r = (l_process_start answers get abandoned).0 in
    let fresh = Fresh→IsFresh p r.reply (start_Fresh answers get abandoned) h in
    let w = one_descriptor d in
    let (closed, empty, total) =
      gc-perform_all-held p calls collection d fresh.open_still fresh.nothing_released in
    (
      closed,
      omega (
        arith,
        started-Settled w p r.reply r.trace (l_process_start-Settled w answers get abandoned) h,
        held-holds d p,
        total,
      ),
    )
