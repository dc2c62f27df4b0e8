-- ===== src/Process/Calls/Truth.antt =====
-- The outcome of a process is final, and a join reports it.
use yaca.Base.{
  Bool, true, false, ◌⊎◌, ap, Bool-cases, some, List, ◌≡◌, arith, sym, subst, if◌then◌else◌,
  Option-cases, inl, inr,
}
use yaca.Process.State.{Outcome, Process, close_process_handles, close_process_streams}
use yaca.Process.Refresh.{Answers, refresh_posix_process}
use yaca.Process.Refresh.Invariant.{refresh_decided}
use yaca.Process.Poll.{Stream, stdout, stderr, close_stream}
use yaca.Process.Calls.{
  perform_all, Call, Reply, close_control, l_process_join, push_process_result, ProcessResult,
  result, joined, raised_closed,
}
use yaca.Process.Calls.Preserve.{perform_all-keeps}

-- The process has this outcome and, if asked, gives this result.
record Final (outcome : Outcome) (r : ProcessResult) (p : Process) : Type 0 where
  is_final : p.outcome ≡ some outcome
  is_reaped : p.reaped ≡ true
  gives : push_process_result p ≡ r

module _ (outcome : Outcome) (r : ProcessResult) where
  refresh-Final :
      (p : Process) (answers : Answers)
      → Final outcome r p
      → Final outcome r (refresh_posix_process p answers)
  refresh-Final p answers f =
      subst (Final outcome r) (sym (refresh_decided p answers outcome f.is_final)) f

  control-Final : (p : Process) → Final outcome r p → Final outcome r (close_control p)
  unfolding push_process_result
  control-Final p f = record { is_final = f.is_final; is_reaped = f.is_reaped; gives = f.gives }

  mark-Final :
      (p : Process) → Final outcome r p → Final outcome r (record p { cancel_requested = true })
  unfolding push_process_result
  mark-Final p f = record { is_final = f.is_final; is_reaped = f.is_reaped; gives = f.gives }

  handles-Final : (p : Process) → Final outcome r p → Final outcome r (close_process_handles p)
  unfolding push_process_result close_process_handles close_process_streams
  handles-Final p f = record { is_final = f.is_final; is_reaped = f.is_reaped; gives = f.gives }

  close_stream-Final :
      (stream : Stream) (p : Process) → Final outcome r p → Final outcome r (close_stream stream p)
  unfolding push_process_result
  close_stream-Final stdout p f = record {
    is_final = f.is_final;
    is_reaped = f.is_reaped;
    gives = f.gives;
  }
  close_stream-Final stderr p f = record {
    is_final = f.is_final;
    is_reaped = f.is_reaped;
    gives = f.gives;
  }

  terminal-Final :
      (p : Process) → Final outcome r p → Final outcome r (record p { terminal_emitted = true })
  unfolding push_process_result
  terminal-Final p f = record { is_final = f.is_final; is_reaped = f.is_reaped; gives = f.gives }

  perform_all-Final :
      (p : Process) (calls : List Call) → Final outcome r p → Final outcome r (perform_all p calls)
  perform_all-Final =
      perform_all-keeps (Final outcome r) refresh-Final control-Final mark-Final handles-Final
        close_stream-Final terminal-Final

reported-Final :
    (q : Process) (r : ProcessResult)
    → (joined q).1 ≡ result r
    → (outcome : Outcome) × Final outcome r (joined q).0
reported-Final q r h = elim (Option-cases q.outcome) [
  | inl e ↦ absurd (ground arith)
  | inr (o, e) ↦ (o, ground arith)
]

Final-reported :
    (outcome : Outcome) (q : Process) (r : ProcessResult)
    → Final outcome r q
    → (joined q).1 ≡ result r
Final-reported outcome q r f = ground arith

-- How a join answers a process whose result is final.
abbrev pub Rejoined : Process → ProcessResult → Reply → Type 0
Rejoined q r reply =
    ((q.closed ≡ false) × (reply ≡ result r)) ⊎ ((q.closed ≡ true) × (reply ≡ raised_closed))

rejoined :
    (outcome : Outcome) (r : ProcessResult) (later : Answers) (q : Process)
    → Final outcome r q
    → Rejoined q r (l_process_join later q).1
unfolding l_process_join
rejoined outcome r later q f =
    let reported = Final-reported outcome _ r (refresh-Final outcome r q later f) in
    elim (Bool-cases q.closed) [
      | inl e ↦ inr (e, ground (arith, e))
      | inr e ↦ inl (e, ground (arith, e, reported))
    ]

-- A join that reports a result is final: whatever is called behind it and whatever the system
-- answers, a later join reports the same result, and so the same outcome, exit code, duration and
-- proof about the descendants, as long as the process is not closed; on a closed one it raises.
pub join-perform_all-join :
    (p : Process) (first later : Answers) (calls : List Call) (r : ProcessResult)
    → (l_process_join first p).1 ≡ result r
    → let q = perform_all (l_process_join first p).0 calls in
      Rejoined q r (l_process_join later q).1
unfolding l_process_join
join-perform_all-join p first later calls r h = elim (Bool-cases p.closed) [
  | inl e ↦ absurd (ground (arith, e, h))
  | inr e ↦
      let (o, f) = reported-Final (refresh_posix_process p first) r (ground (arith, e, h)) in
      rejoined o r later _ (
        perform_all-Final o r _ calls (
          subst (λ (a : Process × Reply). Final o r a.0)
            (ap
              (λ (b : Bool).
                if b then (p, raised_closed) else joined (refresh_posix_process p first))
              (sym e))
            f))
]
