-- ===== src/Process/Calls/Descriptors.antt =====
-- Every descriptor of a process is closed as often as it was held, in the process's life.
use yaca.Base.{
  ℕ, ◌+◌, true, false, Option, none, some, List, [], ◌∷◌, ◌==◌, ◌≡◌, refl, arith, if◌then◌else◌,
  Bool-cases, inl, inr,
}
use yaca.Process.State.{Process, release, close_process_handles, close_process_streams}
use yaca.Process.Refresh.{Answers, refresh_posix_process}
use yaca.Process.Refresh.Holdings.{holdings, refresh-Releases}
use yaca.Process.Poll.{Stream, stdout, stderr, close_stream}
use yaca.Process.Calls.{perform_all, Call, close_control, l_process_gc, CollectAnswers}
use yaca.Process.Calls.Preserve.{perform_all-keeps, gc-keeps}

-- How often a descriptor stands in a list, and in a field.
abbrev pub count : ℕ → List ℕ → ℕ
count d [] = 0
count d (e ∷ es) = (if d == e then 1 else 0) + count d es

abbrev pub count_held : ℕ → Option ℕ → ℕ
count_held d none = 0
count_held d (some e) = if d == e then 1 else 0

abbrev pub held : ℕ → Process → ℕ
held d p =
    count_held d p.stdout_read
    + count_held d p.stderr_read
    + count_held d p.control_write
    + count_held d p.status_read

count-release :
    (d : ℕ) (o : Option ℕ) (list : List ℕ)
    → count d (release o list) ≡ count_held d o + count d list
count-release d none list = omega arith
count-release d (some e) list = refl

-- The descriptor is as often held or closed as at the start; a closed process holds none.
record Conserved (d n : ℕ) (p : Process) : Type 0 where
  total : held d p + count d p.released ≡ n
  none_left : p.closed ≡ true → held d p ≡ 0

module _ (d n : ℕ) where
  streams-Conserved : (p : Process) → Conserved d n p → Conserved d n (close_process_streams p)
  unfolding close_process_streams
  streams-Conserved p c = ground (
    arith,
    count-release d p.stdout_read p.released,
    count-release d p.stderr_read (release p.stdout_read p.released),
  )

  control-Conserved : (p : Process) → Conserved d n p → Conserved d n (close_control p)
  control-Conserved p c = ground (arith, count-release d p.control_write p.released)

  mark-Conserved :
      (p : Process) → Conserved d n p → Conserved d n (record p { cancel_requested = true })
  mark-Conserved p c = record { total = c.total; none_left = c.none_left }

  terminal-Conserved :
      (p : Process) → Conserved d n p → Conserved d n (record p { terminal_emitted = true })
  terminal-Conserved p c = record { total = c.total; none_left = c.none_left }

  close_stream-Conserved :
      (stream : Stream) (p : Process) → Conserved d n p → Conserved d n (close_stream stream p)
  close_stream-Conserved stdout p c = ground (arith, count-release d p.stdout_read p.released)
  close_stream-Conserved stderr p c = ground (arith, count-release d p.stderr_read p.released)

  handles-Conserved : (p : Process) → Conserved d n p → Conserved d n (close_process_handles p)
  unfolding close_process_handles
  handles-Conserved p c =
      let q = close_process_streams p in
      let k = streams-Conserved p c in
      ground (
        arith,
        count-release d q.control_write q.released,
        count-release d q.status_read (release q.control_write q.released),
      )

  holdings-Conserved : (p q : Process) → holdings q ≡ holdings p → Conserved d n p → Conserved d n q
  holdings-Conserved p q h c = ground arith

  refresh-Conserved :
      (p : Process) (answers : Answers)
      → Conserved d n p
      → Conserved d n (refresh_posix_process p answers)
  refresh-Conserved p answers c = elim (refresh-Releases p answers) [
    | inl e ↦ holdings-Conserved p _ e c
    | inr e ↦ holdings-Conserved (close_process_streams p) _ e (streams-Conserved p c)
  ]

  perform_all-Conserved :
      (p : Process) (calls : List Call) → Conserved d n p → Conserved d n (perform_all p calls)
  perform_all-Conserved =
      perform_all-keeps (Conserved d n) refresh-Conserved control-Conserved mark-Conserved
        handles-Conserved close_stream-Conserved terminal-Conserved

  gc-Conserved :
      (p : Process) (answers : CollectAnswers)
      → Conserved d n p
      → Conserved d n (l_process_gc answers [] p).0
  gc-Conserved =
      gc-keeps (Conserved d n) refresh-Conserved control-Conserved mark-Conserved handles-Conserved

gc_closes : (p : Process) (answers : CollectAnswers) → (l_process_gc answers [] p).0.closed ≡ true
unfolding l_process_gc close_process_handles
gc_closes p answers = elim (Bool-cases p.closed) [ inl e ↦ ground arith | inr e ↦ ground arith ]

-- A process that is open and has closed nothing yet: after any calls, whatever the system answers,
-- and then the finalizer, the process is closed, it holds no descriptor, and each descriptor has
-- been given to `close` as often as the process held it at the start.
pub gc-perform_all-held :
    (p : Process) (calls : List Call) (answers : CollectAnswers) (d : ℕ)
    → p.closed ≡ false
    → p.released ≡ []
    → let q = (l_process_gc answers [] (perform_all p calls)).0 in
      (q.closed ≡ true) × (held d q ≡ 0) × (count d q.released ≡ held d p)
gc-perform_all-held p calls answers d h e =
    let start : Conserved d (held d p) p = record {
      total = simp e (omega arith);
      none_left = λ f. cc;
    } in
    let k =
      gc-Conserved d (held d p) (perform_all p calls) answers
        (perform_all-Conserved d (held d p) p calls start) in
    let s = gc_closes (perform_all p calls) answers in
    let none_held = k.none_left s in (s, none_held, omega (arith, k.total))
