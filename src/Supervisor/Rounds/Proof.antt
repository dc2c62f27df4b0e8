-- ===== src/Supervisor/Rounds/Proof.antt =====
-- What the record of a supervisor proves.
use yaca.Base.{
  ℕ, Bool, false, ◌&&◌, ◌||◌, Option, none, some, List, [], ◌∷◌, ◌++◌, append-nil, Bytes, ◌==◌, ◌≡◌,
  refl, arith, ap, ◌∙◌, sym, subst, if◌then◌else◌, Bool-cases, inl, inr,
}
use yaca.Supervisor.Message.{SupervisorResult, supervisor_magic}
use yaca.Supervisor.Rounds.{
  Supervisor, Round, Child, Progress, continuing, finished, WaitEnd, yaca_supervisor_run,
  supervise_round, read_control, note_child, WriteAnswer, reap_children, proceed, write_input,
  write_answered, close_input, asks_end, is_no_child, next_rounds,
}

-- The children that the rounds reap, in their order.
abbrev pub all_reaped : List Round → List Child
all_reaped [] = []
all_reaped (round ∷ rounds) = round.reaped ++ all_reaped rounds

-- Some round asks for the end.
abbrev pub some_asks_end : List Round → Bool
some_asks_end [] = false
some_asks_end (round ∷ rounds) = asks_end round || some_asks_end rounds

abbrev pub observe : ℕ → Child → Option ℕ → Option ℕ
observe leader child found = if child.process_id == leader then some child.status else found

-- The status of the last child with the leader's number, if there is one.
abbrev pub last_status : ℕ → Option ℕ → List Child → Option ℕ
last_status leader found [] = found
last_status leader found (child ∷ children) =
    last_status leader (observe leader child found) children

-- The leader's status, once it is known.
abbrev pub known : Supervisor → Option ℕ
known s = if s.leader_done then some s.leader_status else none

last_status-append :
    (leader : ℕ) (found : Option ℕ) (xs ys : List Child)
    → last_status leader found (xs ++ ys) ≡ last_status leader (last_status leader found xs) ys
last_status-append leader found [] ys = refl
last_status-append leader found (x ∷ xs) ys =
    last_status-append leader (observe leader x found) xs ys

note-known :
    (leader : ℕ) (child : Child) (s : Supervisor)
    → known (note_child leader child s) ≡ observe leader child (known s)
unfolding note_child
note-known leader child s = ground arith

note-cancelled :
    (leader : ℕ) (child : Child) (s : Supervisor)
    → (note_child leader child s).cancelled ≡ s.cancelled
unfolding note_child
note-cancelled leader child s = ground arith

reap-known :
    (leader : ℕ) (children : List Child) (s : Supervisor)
    → known (reap_children leader children s) ≡ last_status leader (known s) children
unfolding reap_children
reap-known leader [] s = refl
reap-known leader (child ∷ children) s =
    reap-known leader children (note_child leader child s)
    ∙ ap (λ o. last_status leader o children) (note-known leader child s)

reap-cancelled :
    (leader : ℕ) (children : List Child) (s : Supervisor)
    → (reap_children leader children s).cancelled ≡ s.cancelled
unfolding reap_children
reap-cancelled leader [] s = refl
reap-cancelled leader (child ∷ children) s =
    reap-cancelled leader children (note_child leader child s) ∙ note-cancelled leader child s

control-known : (round : Round) (s : Supervisor) → known (read_control round s) ≡ known s
unfolding read_control
control-known round s = ground arith

control-cancelled :
    (round : Round) (s : Supervisor)
    → (read_control round s).cancelled ≡ (s.cancelled || asks_end round)
unfolding read_control
control-cancelled round s = ground arith

-- The end of a round touches the input only.
proceed_keeps :
    (stdin : Bytes) (answer : WriteAnswer) (s : Supervisor)
    → (known (proceed stdin answer s) ≡ known s)
      × ((proceed stdin answer s).cancelled ≡ s.cancelled)
unfolding proceed write_input close_input write_answered
proceed_keeps stdin (WriteAnswer.wrote n) s = ground arith
proceed_keeps stdin WriteAnswer.not_now s = ground arith
proceed_keeps stdin WriteAnswer.write_broken s = ground arith

-- What one round makes of what is known of the leader and of the cancellation.
abbrev RoundProof : ℕ → Option ℕ → Bool → Round → Progress → Type 0
RoundProof leader found cancelled round (continuing t) =
    (known t ≡ last_status leader found round.reaped)
    × (t.cancelled ≡ (cancelled || asks_end round))
RoundProof leader found cancelled round (finished t r) =
    (round.wait_end ≡ WaitEnd.no_child)
    × (last_status leader found round.reaped ≡ some r.leader_status)
    × (r.cancelled ≡ (cancelled || asks_end round))
    × (r.magic ≡ supervisor_magic)

supervise_round-RoundProof :
    (leader : ℕ) (stdin : Bytes) (round : Round) (s : Supervisor)
    → RoundProof leader (known s) s.cancelled round (supervise_round leader stdin round s)
unfolding supervise_round
supervise_round-RoundProof leader stdin round s =
    let q = read_control round s in
    let t = reap_children leader round.reaped q in
    let k : known t ≡ last_status leader (known s) round.reaped =
      reap-known leader round.reaped q
      ∙ ap (λ o. last_status leader o round.reaped) (control-known round s) in
    let c : t.cancelled ≡ (s.cancelled || asks_end round) =
      reap-cancelled leader round.reaped q ∙ control-cancelled round s in
    let (kp, cp) = proceed_keeps stdin round.write t in
    elim (Bool-cases (is_no_child round.wait_end && t.leader_done)) [
      | inl e ↦ rw e (ground arith, sym k ∙ ground arith, c, refl)
      | inr e ↦ rw e (kp ∙ k, cp ∙ c)
    ]

-- The last of some rounds leaves no child.
abbrev pub EndsChildless : List Round → Type 0
EndsChildless [] = ⊥
EndsChildless (round ∷ []) = round.wait_end ≡ WaitEnd.no_child
EndsChildless (round ∷ next ∷ rounds) = EndsChildless (next ∷ rounds)

-- The rounds up to the one that sends the record, and what the record has to do with them.
pub record Proven (leader : ℕ) (found : Option ℕ) (cancelled : Bool) (rounds : List Round)
    (r : SupervisorResult) : Type 0 where
  pub used : List Round
  pub rest : List Round
  pub is_prefix : rounds ≡ used ++ rest
  pub childless : EndsChildless used
  pub status : last_status leader found (all_reaped used) ≡ some r.leader_status
  pub is_cancelled : r.cancelled ≡ (cancelled || some_asks_end used)
  pub is_marked : r.magic ≡ supervisor_magic

extend :
    (leader : ℕ) (found : Option ℕ) (cancelled : Bool) (round : Round) (rounds : List Round)
    (r : SupervisorResult)
    → Proven leader (last_status leader found round.reaped) (cancelled || asks_end round) rounds r
    → Proven leader found cancelled (round ∷ rounds) r
extend leader found cancelled round rounds r p = record {
  used = round ∷ p.used;
  rest = p.rest;
  is_prefix = ap (λ l. round ∷ l) p.is_prefix;
  childless = longer p.used p.childless;
  status = last_status-append leader found round.reaped (all_reaped p.used) ∙ p.status;
  is_cancelled = p.is_cancelled ∙ ground arith;
  is_marked = p.is_marked;
}
  where
    longer : (used : List Round) → EndsChildless used → EndsChildless (round ∷ used)
    longer [] h = absurd h
    longer (next ∷ used) h = h

single :
    (leader : ℕ) (found : Option ℕ) (cancelled : Bool) (round : Round) (rounds : List Round)
    (t : Supervisor) (r : SupervisorResult)
    → RoundProof leader found cancelled round (finished t r)
    → Proven leader found cancelled (round ∷ rounds) r
single leader found cancelled round rounds t r (w, k, c, m) = record {
  used = round ∷ [];
  rest = rounds;
  is_prefix = refl;
  childless = w;
  status = ap (last_status leader found) (append-nil round.reaped) ∙ k;
  is_cancelled = c ∙ ground arith;
  is_marked = m;
}

-- From one round and what is proven of the others.
after_round :
    (leader : ℕ) (found : Option ℕ) (cancelled : Bool) (round : Round) (rounds : List Round)
    (t : Supervisor) (r : SupervisorResult) (rest : Supervisor → Progress) (p : Progress)
    → ((q : Supervisor) → rest q ≡ finished t r → Proven leader (known q) q.cancelled rounds r)
    → RoundProof leader found cancelled round p
    → next_rounds rest p ≡ finished t r
    → Proven leader found cancelled (round ∷ rounds) r
after_round leader found cancelled round rounds t r rest (continuing q) ih (k, c) h =
    extend leader found cancelled round rounds r (
      subst (λ o. Proven leader o (cancelled || asks_end round) rounds r) k
        (subst (λ b. Proven leader (known q) b rounds r) c (ih q h)))
after_round leader found cancelled round rounds t r rest (finished q v) ih proof h =
    let same : v ≡ r = cc in
    single leader found cancelled round rounds q r
      (subst (λ x. RoundProof leader found cancelled round (finished q x)) same proof)

-- A supervisor that finishes sends its record behind a round in which no child was left; the
-- status is that of the leader, the last one that was reaped up to then; the record is marked as
-- cancelled exactly if the supervisor was cancelled at the start or a round up to then asked for
-- the end; and it has the magic number.
pub run-Proven :
    (leader : ℕ) (stdin : Bytes) (rounds : List Round) (s t : Supervisor) (r : SupervisorResult)
    → yaca_supervisor_run leader stdin rounds s ≡ finished t r
    → Proven leader (known s) s.cancelled rounds r
unfolding yaca_supervisor_run
run-Proven leader stdin [] s t r h = cc
run-Proven leader stdin (round ∷ rounds) s t r h =
    after_round leader (known s) s.cancelled round rounds t r
      (yaca_supervisor_run leader stdin rounds) (supervise_round leader stdin round s)
      (λ q g. run-Proven leader stdin rounds q t r g)
      (supervise_round-RoundProof leader stdin round s) h
