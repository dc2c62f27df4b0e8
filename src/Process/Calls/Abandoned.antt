-- ===== src/Process/Calls/Abandoned.antt =====
-- A supervisor that outlives its process's userdata.
use yaca.Base.{
  ℕ, zero, suc, Bool, true, false, Option, none, some, List, ◌∷◌, ◌≡◌, refl, arith, ap, ◌∙◌,
  if◌then◌else◌,
}
use yaca.Process.State.{Outcome, Process}
use yaca.Process.Refresh.{WaitAnswer, Answers, refresh_posix_process}
use yaca.Process.Refresh.Invariant.{refresh_running}
use yaca.Process.Calls.{
  CollectAnswers, attempts, attempt_limit, abandon, abandon_or_reap, collected, l_process_gc,
  is_gone, reap_abandoned_supervisors, push_process, close_control,
}

attempts-running :
    (rounds : ℕ) (answers : ℕ → Answers) (p : Process)
    → p.outcome ≡ none
    → p.reaped ≡ false
    → ((i : ℕ) → (answers i).wait ≡ WaitAnswer.running)
    → attempts rounds answers p ≡ p
unfolding attempts
attempts-running zero answers p e r w = refl
attempts-running (suc rounds) answers p e r w =
    ap
      (λ (b : Bool).
        if b
        then p
        else attempts rounds (λ i. answers (suc i)) (refresh_posix_process p (answers 0)))
      r
    ∙ ap (attempts rounds (λ i. answers (suc i))) (refresh_running p (answers 0) e r (w 0))
    ∙ attempts-running rounds (λ i. answers (suc i)) p e r (λ i. w (suc i))

abandon_or_reap-running :
    (answers : CollectAnswers) (abandoned : List ℕ) (p : Process) (process_id : ℕ)
    → p.outcome ≡ none
    → p.reaped ≡ false
    → p.process_id ≡ some process_id
    → ((i : ℕ) → (answers.refresh i).wait ≡ WaitAnswer.running)
    → answers.memory ≡ true
    → (abandon_or_reap answers abandoned p).1 ≡ process_id ∷ abandoned
unfolding abandon_or_reap
abandon_or_reap-running answers abandoned p process_id e r i w m =
    ap (λ (q : Process). abandon q.reaped answers.memory q.process_id abandoned)
      (attempts-running attempt_limit answers.refresh (close_control p) e r w)
    ∙ ap (λ (b : Bool). abandon b answers.memory p.process_id abandoned) r
    ∙ ap (λ (b : Bool). abandon false b p.process_id abandoned) m
    ∙ ap (λ (o : Option ℕ). abandon false true o abandoned) i

open_gc :
    (answers : CollectAnswers) (abandoned : List ℕ) (p : Process)
    → p.closed ≡ false
    → (l_process_gc answers abandoned p).1
      ≡ (collected answers abandoned p p.process_id p.outcome).1
unfolding l_process_gc
open_gc answers abandoned p c = ground arith

gc_running :
    (answers : CollectAnswers) (abandoned : List ℕ) (p : Process) (process_id : ℕ)
    → p.closed ≡ false
    → p.outcome ≡ none
    → p.reaped ≡ false
    → p.process_id ≡ some process_id
    → ((i : ℕ) → (answers.refresh i).wait ≡ WaitAnswer.running)
    → answers.memory ≡ true
    → (l_process_gc answers abandoned p).1 ≡ process_id ∷ abandoned
unfolding l_process_gc
gc_running answers abandoned p process_id c e r i w m =
    open_gc answers abandoned p c
    ∙ ap (λ (o : Option ℕ). (collected answers abandoned p o p.outcome).1) i
    ∙ ap (λ (o : Option Outcome). (collected answers abandoned p (some process_id) o).1) e
    ∙ abandon_or_reap-running answers abandoned p process_id e r i w m

-- If an open process without outcome is collected while its supervisor outlives all attempts of
-- the finalizer, and memory is given, then the supervisor is put in front of the abandoned ones; and
-- the next start of a process that finds it ended takes it off: the list is then what that start
-- would have left of the others.
pub push_process-gc :
    (answers : CollectAnswers) (abandoned : List ℕ) (p : Process) (process_id : ℕ)
    (wait : ℕ → WaitAnswer)
    → p.closed ≡ false
    → p.outcome ≡ none
    → p.reaped ≡ false
    → p.process_id ≡ some process_id
    → ((i : ℕ) → (answers.refresh i).wait ≡ WaitAnswer.running)
    → answers.memory ≡ true
    → is_gone (wait process_id) ≡ true
    → ((l_process_gc answers abandoned p).1 ≡ process_id ∷ abandoned)
      × ((push_process wait (l_process_gc answers abandoned p).1).1
          ≡ (push_process wait abandoned).1)
unfolding push_process
push_process-gc answers abandoned p process_id wait c e r i w m g =
    let kept = gc_running answers abandoned p process_id c e r i w m in
    (kept, ap (reap_abandoned_supervisors wait) kept ∙ rw g refl)
