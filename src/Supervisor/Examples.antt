-- ===== src/Supervisor/Examples.antt =====
-- The theorems on a listing of two children in three buffers, and on a leader that exits with 3
-- while one of its own children lives on for a round.
use yaca.Base.{ℕ, Bytes, true, false, none, List, [], ◌∷◌, ◌≡◌, refl, arith}
use yaca.Supervisor.Message.{SupervisorResult, supervisor_magic}
use yaca.Supervisor.Children.{yaca_supervisor_kill_children}
use yaca.Supervisor.Children.Listing.{kill_children-listing, readings}
use yaca.Supervisor.Rounds.{
  Supervisor, Round, Child, finished, ControlAnswer, WaitEnd, WriteAnswer, yaca_supervisor_run,
}
use yaca.Supervisor.Rounds.Proof.{Proven, run-Proven}
use yaca.Supervisor.Rounds.Input.{HasWrittenSoFar, run-HasWritten}

abbrev numbers : List (List ℕ)
numbers = (1 ∷ 2 ∷ []) ∷ (3 ∷ 0 ∷ 7 ∷ []) ∷ []

-- "1", "2 30" and "7 ".
abbrev buffers : List Bytes
buffers = (49 ∷ []) ∷ (50 ∷ 32 ∷ 51 ∷ 48 ∷ []) ∷ (55 ∷ 32 ∷ []) ∷ []

kill_children-listing_example :
    yaca_supervisor_kill_children (λ c. true) true (readings buffers) ≡ (true, 12 ∷ 307 ∷ [])
kill_children-listing_example =
    kill_children-listing (λ c. true) numbers buffers (λ c. refl) (omega arith) refl

abbrev first : Supervisor
first = record {
  leader_status = 0;
  leader_done = false;
  cancelled = false;
  input_open = true;
  input_offset = 0;
  written = [];
}

abbrev stdin : Bytes
stdin = 97 ∷ 98 ∷ 99 ∷ []

abbrev quiet : List Child → WaitEnd → WriteAnswer → Round
quiet reaped wait_end write = record {
  control = ControlAnswer.not_ready;
  interrupted = false;
  reaped = reaped;
  wait_end = wait_end;
  write = write;
}

abbrev rounds : List Round
rounds =
    quiet [] WaitEnd.children_left (WriteAnswer.wrote 2)
    ∷ quiet (record { process_id = 40; status = 768 } ∷ []) WaitEnd.children_left
        (WriteAnswer.wrote 5)
    ∷ quiet (record { process_id = 44; status = 9 } ∷ []) WaitEnd.no_child WriteAnswer.not_now
    ∷ []

abbrev last : Supervisor
last = record {
  leader_status = 768;
  leader_done = true;
  cancelled = false;
  input_open = false;
  input_offset = 3;
  written = stdin;
}

abbrev sent : SupervisorResult
sent = record { magic = supervisor_magic; leader_status = 768; cancelled = false }

run_example : yaca_supervisor_run 40 stdin rounds first ≡ finished last sent
unfolding yaca_supervisor_run
run_example = refl

run-Proven_example : Proven 40 none false rounds sent
run-Proven_example = run-Proven 40 stdin rounds first last sent run_example

run-HasWritten_example : HasWrittenSoFar stdin (yaca_supervisor_run 40 stdin rounds first)
run-HasWritten_example =
    run-HasWritten stdin 40 rounds first (record { beginning = refl; bounded = omega arith })
