-- ===== src/Process/Calls/Once.antt =====
-- What a sequence of calls on one process delivers, and what stays fixed once it has an outcome.
use yaca.Base.{ℕ, true, false, Option, some, List, [], ◌∷◌, ◌≡◌, refl, arith, ap, ◌∙◌, sym, if-both}
use yaca.Base.Int.{ℤ, pos, negsuc}
use yaca.Process.State.{Outcome, Process, close_process_handles, close_process_streams}
use yaca.Process.Refresh.{Answers, refresh_posix_process}
use yaca.Process.Refresh.Invariant.{IsConsistent, refresh-IsConsistent}
use yaca.Process.Poll.{Progress, going, stopped, l_process_poll, PollAnswers}
use yaca.Process.Poll.Events.{
  protocol, protocol-append, next_protocol, announced, refresh-announced, Done, l_process_poll-Done,
}
use yaca.Process.Calls.{
  perform, perform_all, delivered, delivered_all, Call, Reply, poll_reply, close_control,
  l_process_cancel, l_process_join, l_process_close,
}
use yaca.Process.Calls.Preserve.{is_poll, perform-keeps}

-- What every call but a poll keeps.
record Kept (before : Option Outcome) (p : Process) : Type 0 where
  consistent : IsConsistent p
  same : announced p ≡ before

module _ (before : Option Outcome) where
  refresh-Kept :
      (p : Process) (answers : Answers)
      → Kept before p
      → Kept before (refresh_posix_process p answers)
  refresh-Kept p answers k = record {
    consistent = refresh-IsConsistent p answers k.consistent;
    same = refresh-announced p answers k.consistent ∙ k.same;
  }

  control-Kept : (p : Process) → Kept before p → Kept before (close_control p)
  control-Kept p k = record { consistent = ground arith; same = k.same }

  mark-Kept : (p : Process) → Kept before p → Kept before (record p { cancel_requested = true })
  mark-Kept p k = record { consistent = ground arith; same = k.same }

  handles-Kept : (p : Process) → Kept before p → Kept before (close_process_handles p)
  unfolding close_process_handles close_process_streams
  handles-Kept p k = record { consistent = ground arith; same = k.same }

-- One call: the process stays consistent, and what is delivered leads from what was announced
-- before to what is announced now.
abbrev Follows : Process → Process × Reply → Type 0
Follows p (q, reply) =
    IsConsistent q × (protocol (announced p) (delivered reply) ≡ some (announced q))

poll-Follows :
    (p : Process) (r : Progress) (budget : ℕ)
    → Done (announced p) budget r
    → Follows p (poll_reply r)
unfolding protocol
poll-Follows p (going q events) budget d = (d.0, d.1)
poll-Follows p (stopped q code) budget d = (d.0, ap some (sym d.1))

poll_any-Follows :
    (p : Process) (budget maximum : ℤ) (answers : PollAnswers)
    → IsConsistent p
    → Follows p (poll_reply (l_process_poll budget maximum answers p))
unfolding l_process_poll protocol
poll_any-Follows p (negsuc budget) maximum answers c = (c, refl)
poll_any-Follows p (pos budget) (negsuc maximum) answers c = (c, refl)
poll_any-Follows p (pos budget) (pos maximum) answers c =
    poll-Follows p (l_process_poll (pos budget) (pos maximum) answers p) budget
      (l_process_poll-Done budget maximum answers p c)

-- No other call delivers an event.
silent : (p : Process) (call : Call) → is_poll call ≡ false → delivered (perform p call).1 ≡ []
unfolding perform l_process_cancel l_process_join l_process_close
silent p call h = ground arith

other-Follows :
    (p : Process) (call : Call)
    → is_poll call ≡ false
    → delivered (perform p call).1 ≡ []
    → IsConsistent p
    → Follows p (perform p call)
unfolding protocol
other-Follows p call h e c =
    let k =
      perform-keeps (Kept (announced p)) (refresh-Kept _) (control-Kept _) (mark-Kept _)
        (handles-Kept _) p call h (record { consistent = c; same = refl }) in
    (k.consistent, rw e (ap some (sym k.same)))

perform-Follows : (p : Process) (call : Call) → IsConsistent p → Follows p (perform p call)
unfolding perform protocol
perform-Follows p (Call.poll budget maximum answers) c =
    if-both (Follows p) p.closed (c, refl) (poll_any-Follows p budget maximum answers c)
perform-Follows p (Call.cancel answers) c =
    other-Follows p (Call.cancel answers) refl (silent p (Call.cancel answers) refl) c
perform-Follows p (Call.join answers) c =
    other-Follows p (Call.join answers) refl (silent p (Call.join answers) refl) c
perform-Follows p Call.close c = other-Follows p Call.close refl (silent p Call.close refl) c
perform-Follows p (Call.gc answers) c = other-Follows p (Call.gc answers) refl refl c

-- On a consistent process, whatever the calls and the answers of the system: all events that the
-- successful polls deliver are output up to at most one terminal event and nothing behind it, none
-- if one was delivered before, and the outcome it announces is the one the process has at the end.
pub delivered_all-protocol :
    (p : Process) (calls : List Call)
    → IsConsistent p
    → protocol (announced p) (delivered_all p calls) ≡ some (announced (perform_all p calls))
unfolding delivered_all perform_all protocol
delivered_all-protocol p [] c = refl
delivered_all-protocol p (call ∷ calls) c =
    let (c', e) = perform-Follows p call c in
    protocol-append (announced p) (delivered (perform p call).1) _
    ∙ ap (λ o. next_protocol o (delivered_all (perform p call).0 calls)) e
    ∙ delivered_all-protocol (perform p call).0 calls c'
