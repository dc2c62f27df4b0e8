-- ===== src/Process/Refresh/Invariant.antt =====
-- What `refresh_posix_process` keeps and what it decides.
use yaca.Base.{
  ℕ, Bytes, Bool, true, false, Option, none, some, ◌≡◌, arith, inl, inr, ap, subst, sym,
  if◌then◌else◌, Option-cases, ◌∙◌,
}
use yaca.Process.State.{Outcome, Process, close_process_streams, is_decided}
use yaca.Process.Refresh.{
  WaitAnswer, Answers, refresh_posix_process, settled, settle, after_reap, reap, conclude,
  conclude_proven, read_status, clear_magic,
}

-- The outcomes that speak of the command's own end.
abbrev pub claims : Option Outcome → Bool
claims (some Outcome.completed) = true
claims (some Outcome.failed) = true
claims (some Outcome.cancelled) = true
claims outcome = false

pub record IsConsistent (p : Process) : Type 0 where
  pub decided : p.reaped ≡ is_decided p.outcome
  pub truthful : claims p.outcome ≡ true → p.descendants_proven_stopped ≡ true
  pub emitted_closed : p.terminal_emitted ≡ true → (p.stdout_read ≡ none) × (p.stderr_read ≡ none)
  pub emitted_decided : p.terminal_emitted ≡ true → p.reaped ≡ true

pub refresh_decided :
    (p : Process) (answers : Answers) (outcome : Outcome)
    → p.outcome ≡ some outcome
    → refresh_posix_process p answers ≡ p
unfolding refresh_posix_process
refresh_decided p answers outcome e = ap (settled p answers) e

pub refresh_undecided :
    (p : Process) (answers : Answers)
    → p.outcome ≡ none
    → refresh_posix_process p answers ≡ after_reap p answers (reap p answers.wait)
unfolding refresh_posix_process
refresh_undecided p answers e = ap (settled p answers) e

conclude-IsConsistent :
    (p : Process) (now : Option ℕ)
    → p.reaped ≡ true
    → p.terminal_emitted ≡ false
    → IsConsistent (conclude p now)
unfolding conclude conclude_proven close_process_streams
conclude-IsConsistent p now r e = ground arith

-- The two parts before the conclusion touch neither mark.
prepared_marks :
    (p : Process) (ok : Bool) (pipe : Bytes)
    → let q = read_status p pipe in
      let r = if ok then q else clear_magic q in
      (r.reaped ≡ p.reaped) × (r.terminal_emitted ≡ p.terminal_emitted)
unfolding read_status clear_magic
prepared_marks p ok pipe = ground arith

settle-IsConsistent :
    (p : Process) (ok : Bool) (answers : Answers)
    → p.reaped ≡ true
    → p.terminal_emitted ≡ false
    → IsConsistent (settle p ok answers)
unfolding settle
settle-IsConsistent p ok answers r e =
    let (a, b) = prepared_marks p ok answers.pipe in
    conclude-IsConsistent
      (if ok then read_status p answers.pipe else clear_magic (read_status p answers.pipe))
      answers.now (cc) (cc)

after_reap-IsConsistent :
    (p : Process) (answers : Answers)
    → IsConsistent p
    → p.outcome ≡ none
    → IsConsistent (after_reap p answers (reap p answers.wait))
unfolding reap
after_reap-IsConsistent p answers c e = ground (
  arith,
  settle-IsConsistent (record p { reaped = true }) true answers,
  settle-IsConsistent (record p { reaped = true }) false answers,
)

pub refresh-IsConsistent :
    (p : Process) (answers : Answers)
    → IsConsistent p
    → IsConsistent (refresh_posix_process p answers)
refresh-IsConsistent p answers c = elim (Option-cases p.outcome) [
  | inl e ↦
      subst IsConsistent (sym (refresh_undecided p answers e))
        (after_reap-IsConsistent p answers c e)
  | inr (o, e) ↦ subst IsConsistent (sym (refresh_decided p answers o e)) c
]

after_reap-terminal_emitted :
    (p : Process) (answers : Answers)
    → (after_reap p answers (reap p answers.wait)).terminal_emitted ≡ p.terminal_emitted
unfolding reap settle read_status clear_magic conclude conclude_proven close_process_streams
after_reap-terminal_emitted p answers = ground arith

pub refresh-terminal_emitted :
    (p : Process) (answers : Answers)
    → (refresh_posix_process p answers).terminal_emitted ≡ p.terminal_emitted
refresh-terminal_emitted p answers = elim (Option-cases p.outcome) [
  | inl e ↦
      ap (λ q. q.terminal_emitted) (refresh_undecided p answers e)
      ∙ after_reap-terminal_emitted p answers
  | inr (o, e) ↦ ap (λ q. q.terminal_emitted) (refresh_decided p answers o e)
]

after_reap-running :
    (p : Process) (answers : Answers)
    → p.reaped ≡ false
    → answers.wait ≡ WaitAnswer.running
    → after_reap p answers (reap p answers.wait) ≡ p
unfolding reap
after_reap-running p answers r w = ground arith

-- As long as the supervisor runs, nothing is changed.
pub refresh_running :
    (p : Process) (answers : Answers)
    → p.outcome ≡ none
    → p.reaped ≡ false
    → answers.wait ≡ WaitAnswer.running
    → refresh_posix_process p answers ≡ p
refresh_running p answers e r w = refresh_undecided p answers e ∙ after_reap-running p answers r w
