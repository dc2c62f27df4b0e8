-- ===== src/Process/Poll/Events.antt =====
-- What one `l_process_poll` delivers: never more events than its budget, and the terminal event
-- at most once, behind all output.
use yaca.Base.{
  ℕ, suc, zero, ◌≤◌, false, Option, none, some, List, [], ◌∷◌, ◌++◌, length, length-append, ◌≡◌,
  refl, arith, ltb, if◌then◌else◌, ltb→lt, ap, ◌∙◌, Bool-cases, Option-cases, inl, inr, Bytes, ◌<◌,
  ◌&&◌, sym,
}
use yaca.Base.Int.{pos}
use yaca.Process.State.{Outcome, Process}
use yaca.Process.Refresh.{Answers, refresh_posix_process}
use yaca.Process.Refresh.Invariant.{
  IsConsistent, refresh-IsConsistent, refresh-terminal_emitted, refresh_decided,
}
use yaca.Process.Poll.{
  Stream, stdout, stderr, ReadAnswer, read_answered, read_posix_process_stream, collect, Progress,
  going, stopped, Event, output, terminal, read_stage, refresh_stage, drain_stage, terminal_stage,
  poll_within, l_process_poll, PollAnswers, stream_of, emit, close_stream, is_open, size_max,
}

-- The outcome that a terminal event has announced.
abbrev pub announced : Process → Option Outcome
announced p = if p.terminal_emitted then p.outcome else none

-- What may follow: output until a terminal event, and nothing behind one. The argument is what was
-- announced before, the result what is announced at the end.
unfoldable pub protocol : Option Outcome → List Event → Option (Option Outcome)
protocol before [] = some before
protocol (some outcome) (event ∷ events) = none
protocol none (output stream bytes ∷ events) = protocol none events
protocol none (terminal outcome ∷ events) = protocol (some outcome) events

abbrev pub next_protocol : Option (Option Outcome) → List Event → Option (Option Outcome)
next_protocol none events = none
next_protocol (some before) events = protocol before events

pub protocol-append :
    (before : Option Outcome) (xs ys : List Event)
    → protocol before (xs ++ ys) ≡ next_protocol (protocol before xs) ys
unfolding protocol
protocol-append before [] ys = refl
protocol-append (some outcome) (event ∷ xs) ys = refl
protocol-append none (output stream bytes ∷ xs) ys = protocol-append none xs ys
protocol-append none (terminal outcome ∷ xs) ys = protocol-append (some outcome) xs ys

pub refresh-announced :
    (p : Process) (answers : Answers)
    → IsConsistent p
    → announced (refresh_posix_process p answers) ≡ announced p
refresh-announced p answers c = elim (Option-cases p.outcome) [
  | inl e ↦
      let f : p.terminal_emitted ≡ false = ground arith in
      let g = refresh-terminal_emitted p answers in cc
  | inr (o, e) ↦ ap (λ q. announced q) (refresh_decided p answers o e)
]

module _ (before : Option Outcome) (budget : ℕ) where
  -- A poll before its terminal event.
  abbrev pub Open : Progress → Type 0
  Open (going p events) =
      IsConsistent p
      × (announced p ≡ before)
      × (protocol before events ≡ some before)
      × (length events ≤ budget)
  Open (stopped p code) = IsConsistent p × (announced p ≡ before)

  -- A poll at its end.
  abbrev pub Done : Progress → Type 0
  Done (going p events) =
      IsConsistent p × (protocol before events ≡ some (announced p)) × (length events ≤ budget)
  Done (stopped p code) = IsConsistent p × (announced p ≡ before)

-- An event may follow as long as nothing terminal was delivered.
open-protocol :
    (events : List Event) (event : Event)
    → protocol none events ≡ some none
    → protocol none (events ++ (event ∷ [])) ≡ protocol none (event ∷ [])
open-protocol events event q =
    protocol-append none events (event ∷ []) ∙ ap (λ o. next_protocol o (event ∷ [])) q

close_stream-IsConsistent :
    (stream : Stream) (p : Process) → IsConsistent p → IsConsistent (close_stream stream p)
close_stream-IsConsistent stdout p c = ground arith
close_stream-IsConsistent stderr p c = ground arith

close_stream-announced :
    (stream : Stream) (p : Process) → announced (close_stream stream p) ≡ announced p
close_stream-announced stdout p = refl
close_stream-announced stderr p = refl

-- A process with an open stream has not emitted its terminal event.
open_stream-announced :
    (stream : Stream) (p : Process) (descriptor : ℕ)
    → IsConsistent p
    → stream_of stream p ≡ some descriptor
    → announced p ≡ none
open_stream-announced stdout p descriptor c h = ground arith
open_stream-announced stderr p descriptor c h = ground arith

module _ (before : Option Outcome) (budget : ℕ) where
  output-Open :
      (stream : Stream) (bytes : Bytes) (p : Process) (events : List Event)
      → Open before budget (going p events)
      → length events < budget
      → announced p ≡ none
      → Open before budget (going p (events ++ (output stream bytes ∷ [])))
  unfolding protocol
  output-Open stream bytes p events (c, e, q, l) room f = ground (
    arith,
    open-protocol events (output stream bytes),
    length-append {0} events (output stream bytes ∷ []),
  )

  answered-Open :
      (stream : Stream) (maximum : ℕ) (p : Process) (events : List Event) (held : Option ℕ)
      (answer : ReadAnswer)
      → stream_of stream p ≡ held
      → Open before budget (going p events)
      → length events < budget
      → Open before budget (collect stream events (read_answered stream maximum p held answer))
  unfolding collect read_answered
  answered-Open stream maximum p events none answer h o room = o
  answered-Open stream maximum p events (some d) (ReadAnswer.holds byte bytes) h o room =
      output-Open stream _ p events o room (open_stream-announced stream p d o.0 h)
  answered-Open stream maximum p events (some d) ReadAnswer.ended h (c, e, q, l) room =
      (close_stream-IsConsistent stream p c, close_stream-announced stream p ∙ e, q, l)
  answered-Open stream maximum p events (some d) ReadAnswer.not_ready h o room = o
  answered-Open stream maximum p events (some d) (ReadAnswer.broken errno) h (c, e, q, l) room =
      (c, e)

  read_stage-Open :
      (stream : Stream) (maximum : ℕ) (answer : ReadAnswer) (r : Progress)
      → Open before budget r
      → Open before budget (read_stage stream budget maximum answer r)
  unfolding read_stage read_posix_process_stream
  read_stage-Open stream maximum answer (stopped p code) o = o
  read_stage-Open stream maximum answer (going p events) o =
      elim (Bool-cases (ltb (length events) budget)) [
        | inl e ↦ rw e (
            answered-Open stream maximum p events (stream_of stream p) answer refl o (ltb→lt _ _ e))
        | inr e ↦ rw e o
      ]

  drain_stage-Open :
      (stream : Stream) (maximum : ℕ) (answer : ReadAnswer) (r : Progress)
      → Open before budget r
      → Open before budget (drain_stage stream budget maximum answer r)
  unfolding drain_stage read_posix_process_stream
  drain_stage-Open stream maximum answer (stopped p code) o = o
  drain_stage-Open stream maximum answer (going p events) o =
      elim (Bool-cases (p.reaped && (is_open (stream_of stream p) && ltb (length events) budget))) [
        | inl e ↦ rw e (
            answered-Open stream maximum p events (stream_of stream p) answer refl o (ground arith))
        | inr e ↦ rw e o
      ]

  refresh_stage-Open :
      (answers : Answers) (r : Progress)
      → Open before budget r
      → Open before budget (refresh_stage answers r)
  unfolding refresh_stage
  refresh_stage-Open answers (stopped p code) o = o
  refresh_stage-Open answers (going p events) (c, e, q, l) =
      (refresh-IsConsistent p answers c, refresh-announced p answers c ∙ e, q, l)

  emit-Done :
      (p : Process) (events : List Event) (outcome : Option Outcome)
      → p.outcome ≡ outcome
      → Open before budget (going p events)
      → Done before budget (emit budget p events outcome)
  unfolding protocol
  emit-Done p events none h (c, e, q, l) = (c, q ∙ ap some (sym e), l)
  emit-Done p events (some o) h (c, e, q, l) =
      ground (arith, open-protocol events (terminal o), length-append {0} events (terminal o ∷ []))

  terminal_stage-Done :
      (r : Progress) → Open before budget r → Done before budget (terminal_stage budget r)
  unfolding terminal_stage
  terminal_stage-Done (stopped p code) o = o
  terminal_stage-Done (going p events) o = emit-Done p events p.outcome refl o

  poll_within-Done :
      (maximum : ℕ) (answers : PollAnswers) (p : Process)
      → IsConsistent p
      → announced p ≡ before
      → Done before budget (poll_within budget maximum answers p)
  unfolding poll_within protocol
  poll_within-Done maximum answers p c e = terminal_stage-Done _ (
      drain_stage-Open stderr maximum answers.drain_stderr _ (
        drain_stage-Open stdout maximum answers.drain_stdout _ (
          refresh_stage-Open answers.refresh _ (
            read_stage-Open stderr maximum answers.read_stderr _ (
              read_stage-Open stdout maximum answers.read_stdout (going p [])
                (c, e, refl, omega arith))))))

-- A poll keeps a process consistent. If it succeeds, its events keep the protocol: output until at
-- most one terminal event, nothing behind one, and none at all if one was delivered before; and
-- they are at most `budget`. If it fails, what was announced is as before.
pub l_process_poll-Done :
    (budget maximum : ℕ) (answers : PollAnswers) (p : Process)
    → IsConsistent p
    → Done (announced p) budget (l_process_poll (pos budget) (pos maximum) answers p)
unfolding l_process_poll
l_process_poll-Done budget zero answers p c = (c, refl)
l_process_poll-Done budget (suc maximum) answers p c = elim (Bool-cases (ltb size_max budget)) [
  | inl e ↦ rw e (c, refl)
  | inr e ↦ rw e (elim (Bool-cases (ltb size_max (suc maximum))) [
    | inl f ↦ rw f (c, refl)
    | inr f ↦ rw f (poll_within-Done (announced p) budget (suc maximum) answers p c refl)
  ])
]
