-- ===== src/Supervisor/Rounds/Input.antt =====
-- What the leader reads on its input.
use yaca.Base.{
  ℕ, take-add, ◌==◌, ◌+◌, ◌-◌, ◌≤◌, Bool, true, false, ◌&&◌, List, [], ◌∷◌, ◌++◌, Bytes, length,
  take, drop, ◌≡◌, arith, ap, ◌∙◌, sym, ltb, Bool-cases, inl, inr, if-both,
}
use yaca.Supervisor.Rounds.{
  Supervisor, Round, Child, Progress, continuing, finished, WriteAnswer, taken, yaca_supervisor_run,
  supervise_round, read_control, note_child, reap_children, proceed, write_input, write_answered,
  close_input, next_rounds, is_no_child,
}

-- What was written is the beginning of the input, as long as the offset says.
pub record HasWritten (stdin : Bytes) (s : Supervisor) : Type 0 where
  pub beginning : s.written ≡ take s.input_offset stdin
  pub bounded : s.input_offset ≤ length stdin

abbrev pub HasWrittenSoFar : Bytes → Progress → Type 0
HasWrittenSoFar stdin (continuing s) = HasWritten stdin s
HasWrittenSoFar stdin (finished s r) = HasWritten stdin s

module _ (stdin : Bytes) where
  note-HasWritten :
      (leader : ℕ) (child : Child) (s : Supervisor)
      → HasWritten stdin s
      → HasWritten stdin (note_child leader child s)
  unfolding note_child
  note-HasWritten leader child s h =
      if-both (HasWritten stdin) (child.process_id == leader)
        (record { beginning = h.beginning; bounded = h.bounded }) h

  reap-HasWritten :
      (leader : ℕ) (children : List Child) (s : Supervisor)
      → HasWritten stdin s
      → HasWritten stdin (reap_children leader children s)
  unfolding reap_children
  reap-HasWritten leader [] s h = h
  reap-HasWritten leader (child ∷ children) s h =
      reap-HasWritten leader children (note_child leader child s) (note-HasWritten leader child s h)

  control-HasWritten :
      (round : Round) (s : Supervisor)
      → HasWritten stdin s
      → HasWritten stdin (read_control round s)
  unfolding read_control
  control-HasWritten round s h = ground arith

  close-HasWritten :
      (done : Bool) (s : Supervisor) → HasWritten stdin s → HasWritten stdin (close_input done s)
  unfolding close_input
  close-HasWritten true s h = record { beginning = h.beginning; bounded = h.bounded }
  close-HasWritten false s h = h

  answered-HasWritten :
      (answer : WriteAnswer) (s : Supervisor)
      → HasWritten stdin s
      → HasWritten stdin (write_answered stdin answer s)
  unfolding write_answered
  answered-HasWritten (WriteAnswer.wrote n) s h =
      let count = taken n (length stdin - s.input_offset) in
      close-HasWritten (s.input_offset + count == length stdin)
        (record s {
          input_offset = s.input_offset + count;
          written = s.written ++ take count (drop s.input_offset stdin);
        })
        (record {
          beginning =
              ap (λ w. w ++ take count (drop s.input_offset stdin)) h.beginning
              ∙ sym (take-add s.input_offset count stdin);
          bounded = ground arith;
        })
  answered-HasWritten WriteAnswer.not_now s h = h
  answered-HasWritten WriteAnswer.write_broken s h = close-HasWritten true s h

  write-HasWritten :
      (answer : WriteAnswer) (s : Supervisor)
      → HasWritten stdin s
      → HasWritten stdin (write_input stdin answer s)
  unfolding write_input
  write-HasWritten answer s h =
      if-both (HasWritten stdin) (ltb s.input_offset (length stdin))
        (answered-HasWritten answer s h) (close-HasWritten (s.input_offset == length stdin) s h)

  proceed-HasWritten :
      (answer : WriteAnswer) (s : Supervisor)
      → HasWritten stdin s
      → HasWritten stdin (proceed stdin answer s)
  unfolding proceed
  proceed-HasWritten answer s h =
      if-both (HasWritten stdin) s.cancelled
        (record { beginning = h.beginning; bounded = h.bounded })
        (if-both (HasWritten stdin) s.input_open (write-HasWritten answer s h) h)

  round-HasWritten :
      (leader : ℕ) (round : Round) (s : Supervisor)
      → HasWritten stdin s
      → HasWrittenSoFar stdin (supervise_round leader stdin round s)
  unfolding supervise_round
  round-HasWritten leader round s h =
      let q = reap_children leader round.reaped (read_control round s) in
      let k =
        reap-HasWritten leader round.reaped (read_control round s) (control-HasWritten round s h) in
      elim (Bool-cases (is_no_child round.wait_end && q.leader_done)) [
        | inl e ↦ rw e k
        | inr e ↦ rw e (proceed-HasWritten round.write q k)
      ]

  next-HasWritten :
      (rest : Supervisor → Progress) (p : Progress)
      → ((s : Supervisor) → HasWritten stdin s → HasWrittenSoFar stdin (rest s))
      → HasWrittenSoFar stdin p
      → HasWrittenSoFar stdin (next_rounds rest p)
  next-HasWritten rest (continuing s) ih h = ih s h
  next-HasWritten rest (finished s r) ih h = h

  -- Whatever the rounds are, what the leader is given is always the beginning of the request's
  -- input, in order and without a gap or a repetition, as long as the offset says.
  pub run-HasWritten :
      (leader : ℕ) (rounds : List Round) (s : Supervisor)
      → HasWritten stdin s
      → HasWrittenSoFar stdin (yaca_supervisor_run leader stdin rounds s)
  unfolding yaca_supervisor_run
  run-HasWritten leader [] s h = h
  run-HasWritten leader (round ∷ rounds) s h =
      next-HasWritten (yaca_supervisor_run leader stdin rounds)
        (supervise_round leader stdin round s) (λ q k. run-HasWritten leader rounds q k)
        (round-HasWritten leader round s h)
