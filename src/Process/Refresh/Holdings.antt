-- ===== src/Process/Refresh/Holdings.antt =====
-- What `refresh_posix_process` does to the descriptors: nothing, or it closes the two streams.
use yaca.Base.{
  ℕ, Bytes, Bool, true, Option, List, ◌≡◌, refl, arith, false, ◌∙◌, ◌⊎◌, inl, inr, if◌then◌else◌,
  if-both, subst, sym, Option-cases,
}
use yaca.Process.State.{Process, close_process_streams}
use yaca.Process.Refresh.{
  Answers, refresh_posix_process, settle, after_reap, reap, conclude, conclude_proven, read_status,
  clear_magic, proves,
}
use yaca.Process.Refresh.Invariant.{refresh_decided, refresh_undecided}

-- The fields that stand for what the process holds of the system.
abbrev pub Holdings : Type 0
Holdings = Option ℕ × Option ℕ × Option ℕ × Option ℕ × List ℕ × Bool

abbrev pub holdings : Process → Holdings
holdings p = (p.stdout_read, p.stderr_read, p.control_write, p.status_read, p.released, p.closed)

abbrev pub Releases : Process → Process → Type 0
Releases p q = (holdings q ≡ holdings p) ⊎ (holdings q ≡ holdings (close_process_streams p))

conclude_proven-holdings : (p : Process) → holdings (conclude_proven p) ≡ holdings p
unfolding conclude_proven
conclude_proven-holdings p = ground arith

conclude-Releases : (p : Process) (now : Option ℕ) → Releases p (conclude p now)
unfolding conclude close_process_streams
conclude-Releases p now =
    if-both (Releases p) (proves p)
      (inl (
        conclude_proven-holdings
          (record p { finished_at = now; descendants_proven_stopped = proves p })))
      (inr refl)

prepared-holdings :
    (p : Process) (ok : Bool) (pipe : Bytes)
    → holdings (if ok then read_status p pipe else clear_magic (read_status p pipe)) ≡ holdings p
unfolding read_status clear_magic
prepared-holdings p ok pipe = ground arith

-- Equal holdings before give equal holdings behind.
Releases-holdings : (p q r : Process) → holdings q ≡ holdings p → Releases q r → Releases p r
unfolding close_process_streams
Releases-holdings p q r h (inl e) = inl (e ∙ h)
Releases-holdings p q r h (inr e) = inr (e ∙ ground arith)

settle-Releases : (p : Process) (ok : Bool) (answers : Answers) → Releases p (settle p ok answers)
unfolding settle
settle-Releases p ok answers =
    let q = if ok then read_status p answers.pipe else clear_magic (read_status p answers.pipe) in
    Releases-holdings p q (conclude q answers.now) (prepared-holdings p ok answers.pipe)
      (conclude-Releases q answers.now)

after_reap-Releases :
    (p : Process) (answers : Answers) → Releases p (after_reap p answers (reap p answers.wait))
unfolding reap close_process_streams
after_reap-Releases p answers = ground (
  arith,
  settle-Releases p true answers,
  settle-Releases (record p { reaped = true }) false answers,
  settle-Releases (record p { reaped = true }) true answers,
)

pub refresh-Releases :
    (p : Process) (answers : Answers) → Releases p (refresh_posix_process p answers)
refresh-Releases p answers = elim (Option-cases p.outcome) [
  | inl e ↦ subst (Releases p) (sym (refresh_undecided p answers e)) (after_reap-Releases p answers)
  | inr (o, e) ↦ subst (Releases p) (sym (refresh_decided p answers o e)) (inl refl)
]
