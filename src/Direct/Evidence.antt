-- ===== src/Direct/Evidence.antt =====
-- What the log of an action shows if it succeeds: the rules for each way to build an action. A
-- failure shows nothing here.
use yaca.Base.{
  ℕ, Bool, true, false, Option, none, some, List, [], ◌∷◌, ◌++◌, ◌≡◌, ◌⊎◌, inr, refl, sym, ap,
  subst, ◌∙◌, if◌then◌else◌,
}
use yaca.Base.Result.{Result, ok, err}
use yaca.Paths.{SplitResult, split, refused_entry, refused_basename, no_memory}
use yaca.Direct.Facts.{Stat, Identity, identity_from_stat, identity_matches_lua}
use yaca.Direct.System.{
  System, State, Failure, Deed, Look, look_at, Way, Event, tried, saw, did, Action, continue, pure,
  fail, ◌>>=◌, ◌>>◌, observe, look, require, or_fail, open_first, open_second, open_third,
  keep_first, keep_second, keep_third, change, changed, change_nothing, parts, Expected, verify,
  unknown, verdict, close_slots, closing, is_none,
}
use yaca.Direct.Rules.{changes, opens, closes, Undone}
use yaca.Direct.Rules.Calls.{Matches}
use yaca.Direct.Rules.Closing.{Promised}

-- The event is in the log.
abbrev pub Occurs : Event → List Event → Type 0
Occurs event [] = ⊥
Occurs event (e ∷ log) = (event ≡ e) ⊎ Occurs event log

pub append-Occurs :
    (event : Event) (extra log : List Event) → Occurs event log → Occurs event (extra ++ log)
append-Occurs event [] log h = h
append-Occurs event (e ∷ extra) log h = inr (append-Occurs event extra log h)

-- A log is cut at an event: what came later, and what came earlier.
pub record Cut (event : Event) (log : List Event) : Type 0 where
  pub later : List Event
  pub earlier : List Event
  pub whole : log ≡ later ++ (event ∷ earlier)

pub earlier-Occurs :
    (mark event : Event) (log : List Event) (cut : Cut mark log)
    → Occurs event cut.earlier
    → Occurs event log
earlier-Occurs mark event log cut h =
    subst (Occurs event) (sym cut.whole)
      (append-Occurs event cut.later (mark ∷ cut.earlier) (inr h))

module _ {W A : Type 0} where
  abbrev pub Shown : (A → State W → Type 0) → Result Failure A × State W → Type 0
  Shown Q (ok a, s) = Q a s
  Shown Q (err e, s) = Unit {0}

  -- Where `P` holds before, a success gives `Q`.
  pub record Shows (P : State W → Type 0) (Q : A → State W → Type 0) (m : Action W A) : Type 0 where
    pub at : (s : State W) → P s → Shown Q (m s)

  anything : (r : Result Failure A) (s : State W) → Shown (λ a s. Unit {0}) (r, s)
  anything (ok a) s = tt
  anything (err e) s = tt

  pub any-Shows : {P : State W → Type 0} → (m : Action W A) → Shows P (λ a s. Unit {0}) m
  any-Shows m = record { at = λ s p. anything (m s).0 (m s).1 }

  weaken_at :
      (Q R : A → State W → Type 0) (r : Result Failure A) (s : State W)
      → Shown Q (r, s)
      → ((a : A) (s : State W) → Q a s → R a s)
      → Shown R (r, s)
  weaken_at Q R (ok a) s h k = k a s h
  weaken_at Q R (err e) s h k = tt

  pub weaken-Shows :
      {P : State W → Type 0}
      → {Q R : A → State W → Type 0} → {m : Action W A} → Shows P Q m
      → ((a : A) (s : State W) → Q a s → R a s)
      → Shows P R m
  weaken-Shows {Q = Q} {R = R} {m = m} h k = record {
    at = λ s p. weaken_at Q R (m s).0 (m s).1 (h.at s p) k;
  }

  pub pure-Shows :
      {P : State W → Type 0}
      → {Q : A → State W → Type 0} → (a : A) → ((s : State W) → P s → Q a s)
      → Shows P Q (pure a)
  unfolding pure
  pure-Shows a h = record { at = λ s p. h s p }

  pub fail-Shows :
      {P : State W → Type 0} → {Q : A → State W → Type 0} → (e : Failure) → Shows P Q (fail e)
  unfolding fail
  fail-Shows e = record { at = λ s p. tt }

  pub if-Shows :
      {P : State W → Type 0}
      → {Q : A → State W → Type 0} → {m n : Action W A} → (b : Bool) → (b ≡ true → Shows P Q m)
      → (b ≡ false → Shows P Q n)
      → Shows P Q (if b then m else n)
  if-Shows true h k = h refl
  if-Shows false h k = k refl

  pub fact-Shows :
      {F : Type 0}
      → {P : State W → Type 0} → {Q : A → State W → Type 0} → {m : Action W A} → (F → Shows P Q m)
      → Shows (λ s. F × P s) Q m
  fact-Shows h = record { at = λ s p. (h p.0).at s p.1 }

  pub given-Shows :
      {X : Type 0}
      → {P : X → State W → Type 0} → {Q : A → State W → Type 0} → {m : Action W A}
      → ((x : X) → Shows (P x) Q m)
      → Shows (λ s. (x : X) × P x s) Q m
  given-Shows h = record { at = λ s p. (h p.0).at s p.1 }

  or_fail_at :
      (P : State W → Type 0) (e : Failure) (r : Result ℕ A) (s : State W)
      → P s
      → Shown (λ a s. (r ≡ ok a) × P s) (or_fail e r s)
  unfolding or_fail
  or_fail_at P e (ok a) s p = (refl, p)
  or_fail_at P e (err error) s p = tt

  pub or_fail-Shows :
      {P : State W → Type 0}
      → (e : Failure) (r : Result ℕ A) → Shows P (λ a s. (r ≡ ok a) × P s) (or_fail e r)
  or_fail-Shows {P = P} e r = record { at = λ s p. or_fail_at P e r s p }

module _ {W A B : Type 0} where
  continue-Shown :
      (Q : A → State W → Type 0) (R : B → State W → Type 0) (f : A → Action W B)
      (r : Result Failure A) (t : State W)
      → Shown Q (r, t)
      → ((a : A) → Shows (Q a) R (f a))
      → Shown R (continue f r t)
  continue-Shown Q R f (ok a) t h k = (k a).at t h
  continue-Shown Q R f (err e) t h k = tt

  pub >>=-Shows :
      {P : State W → Type 0}
      → {Q : A → State W → Type 0} → {R : B → State W → Type 0} → {m : Action W A}
      → {f : A → Action W B} → Shows P Q m
      → ((a : A) → Shows (Q a) R (f a))
      → Shows P R (m >>= f)
  unfolding ◌>>=◌
  >>=-Shows {Q = Q} {R = R} {m = m} {f = f} h k = record {
    at = λ s p. continue-Shown Q R f (m s).0 (m s).1 (h.at s p) k;
  }

  pub >>-Shows :
      {P : State W → Type 0}
      → {Q : A → State W → Type 0} → {R : B → State W → Type 0} → {m : Action W A}
      → {n : Action W B} → Shows P Q m
      → ((a : A) → Shows (Q a) R n)
      → Shows P R (m >> n)
  unfolding ◌>>◌
  >>-Shows h k = >>=-Shows h k

-- The changes behind a change, by its answer.
abbrev pub after : Deed → Option ℕ → List Deed → List Deed
after deed none list = deed ∷ list
after deed (some error) list = list

-- A change of directories, by which `changes` grows.
pub record IsChange (deed : Deed) : Type 0 where
  pub counts : (trace : List Deed) → changes (deed ∷ trace) ≡ deed ∷ changes trace

module _ {W : Type 0} where
  -- The log and the changes are these.
  pub record Is (log : List Event) (list : List Deed) (s : State W) : Type 0 where
    pub events : s.log ≡ log
    pub listed : changes s.trace ≡ list

  require_at :
      (P : State W → Type 0) (b : Bool) (e : Failure) (s : State W)
      → P s
      → Shown (λ a s. (b ≡ true) × P s) (require b e s)
  unfolding require
  require_at P true e s p = (refl, p)
  require_at P false e s p = tt

  pub require-Shows :
      {P : State W → Type 0}
      → (b : Bool) (e : Failure) → Shows P (λ a s. (b ≡ true) × P s) (require b e)
  require-Shows {P = P} b e = record { at = λ s p. require_at P b e s p }

  parts_at :
      (P : State W → Type 0) (r : SplitResult) (s : State W)
      → P s
      → Shown (λ a s. (r ≡ split a.0 a.1) × P s) (parts r s)
  unfolding parts
  parts_at P (split parent name) s p = (refl, p)
  parts_at P refused_entry s p = tt
  parts_at P refused_basename s p = tt
  parts_at P no_memory s p = tt

  pub parts-Shows :
      {P : State W → Type 0}
      → (r : SplitResult) → Shows P (λ a s. (r ≡ split a.0 a.1) × P s) (parts r)
  parts-Shows {P = P} r = record { at = λ s p. parts_at P r s p }

  verdict_at :
      (P : State W → Type 0) (expected : Expected) (r : Result ℕ Stat) (found : Stat)
      (identity : Option Identity) (s : State W)
      → r ≡ ok found
      → identity_from_stat found ≡ identity
      → P s
      → Shown (λ a s. ((r ≡ ok a) × Matches expected a) × P s) (verdict expected found identity s)
  unfolding fail
  verdict_at P expected r found none s q e p = tt
  verdict_at P expected r found (some identity) s q e p =
      (if-Shows {P = P} {Q = λ a s. ((r ≡ ok a) × Matches expected a) × P s} expected.raises
          (λ r. fail-Shows _)
          λ r.
            if-Shows (identity_matches_lua expected.get identity)
              (λ m.
                pure-Shows found
                  λ s p. ((q, record { identity = identity; found = e; matched = m }), p))
              λ m. fail-Shows _).at
        s p

  verify_at :
      (P : State W → Type 0) (expected : Expected) (r : Result ℕ Stat) (s : State W)
      → P s
      → Shown (λ a s. ((r ≡ ok a) × Matches expected a) × P s) (verify expected r s)
  unfolding verify fail
  verify_at P expected (ok found) s p =
      verdict_at P expected (ok found) found (identity_from_stat found) s refl refl p
  verify_at P expected (err error) s p = tt

  -- The answer is a stat that is what the caller expects.
  pub verify-Shows :
      {P : State W → Type 0}
      → (expected : Expected) (r : Result ℕ Stat)
      → Shows P (λ a s. ((r ≡ ok a) × Matches expected a) × P s) (verify expected r)
  verify-Shows {P = P} expected r = record { at = λ s p. verify_at P expected r s p }

  pub observe-Shows :
      {log : List Event}
      → {list : List Deed} → (sys : System W) (what : Look)
      → Shows (Is log list) (λ a. Is (saw what a ∷ log) list) (observe sys what)
  unfolding observe
  observe-Shows sys what = record {
    at = λ s p. record {
      events = ap (λ t. saw what (look_at sys what s.world).0 ∷ t) p.events;
      listed = p.listed;
    };
  }

  pub look-Shows :
      {A : Type 0}
      → {log : List Event} → {list : List Deed} → (event : A → Event) (step : W → A × W)
      → Shows (Is log list) (λ a. Is (event a ∷ log) list) (look event step)
  unfolding look
  look-Shows event step = record {
    at =
        λ s p. record { events = ap (λ t. event (step s.world).0 ∷ t) p.events; listed = p.listed };
  }

  pub change_nothing-Shows :
      {P : State W → Type 0}
      → ((s : State W) (w : W) → P s → P (record s { world = w }))
      → (call : W → Option ℕ × W) → Shows P (λ a. P) (change_nothing call)
  unfolding change_nothing
  change_nothing-Shows h call = record { at = λ s p. h s (call s.world).1 p }

  changed-listed :
      (deed : Deed) (answer : Option ℕ) (s : State W) (list : List Deed)
      → IsChange deed
      → changes s.trace ≡ list
      → changes (changed answer deed s).trace ≡ after deed answer list
  changed-listed deed none s list c h = c.counts s.trace ∙ ap (λ t. deed ∷ t) h
  changed-listed deed (some error) s list c h = h

  changed-log :
      (deed : Deed) (answer : Option ℕ) (s : State W) → (changed answer deed s).log ≡ s.log
  changed-log deed none s = refl
  changed-log deed (some error) s = refl

  pub change-Shows :
      {log : List Event}
      → {list : List Deed} → (deed : Deed) (call : W → Option ℕ × W) → IsChange deed
      → Shows (Is log list) (λ a. Is (did deed a ∷ log) (after deed a list)) (change call deed)
  unfolding change
  change-Shows {list = list} deed call c = record {
    at = λ s p.
        let answer = call s.world in
        record {
          events =
              ap (λ t. did deed answer.0 ∷ t)
                (changed-log deed answer.0 (record s { world = answer.1 }) ∙ p.events);
          listed = changed-listed deed answer.0 (record s { world = answer.1 }) list c p.listed;
        };
  }

  -- What is shown for any answer is shown for the one that is taken.
  pub refused-Shows :
      (P : Option ℕ → State W → Type 0) (answer : Option ℕ) (e : Failure)
      → Shows (P answer) (λ a. P none) (require (is_none answer) e)
  unfolding require
  refused-Shows P none e = record { at = λ s p. p }
  refused-Shows P (some error) e = record { at = λ s p. tt }

  opens_first :
      (answer : Result ℕ ℕ) (s : State W)
      → ((keep_first answer s).log ≡ s.log)
        × (changes (keep_first answer s).trace ≡ changes s.trace)
  opens_first (ok d) s = (refl, refl)
  opens_first (err error) s = (refl, refl)

  opens_second :
      (answer : Result ℕ ℕ) (s : State W)
      → ((keep_second answer s).log ≡ s.log)
        × (changes (keep_second answer s).trace ≡ changes s.trace)
  opens_second (ok d) s = (refl, refl)
  opens_second (err error) s = (refl, refl)

  opens_third :
      (answer : Result ℕ ℕ) (s : State W)
      → ((keep_third answer s).log ≡ s.log)
        × (changes (keep_third answer s).trace ≡ changes s.trace)
  opens_third (ok d) s = (refl, refl)
  opens_third (err error) s = (refl, refl)

  module _ {log : List Event} {list : List Deed} (way : Way) (call : W → Result ℕ ℕ × W) where
    entered :
        (answer : Result ℕ ℕ) (s t : State W)
        → Is log list s
        → (t.log ≡ s.log) × (changes t.trace ≡ changes s.trace)
        → Is (tried way answer ∷ log) list (record t { log = tried way answer ∷ t.log })
    entered answer s t p (e, f) = record {
      events = ap (λ l. tried way answer ∷ l) (e ∙ p.events);
      listed = f ∙ p.listed;
    }

    pub open_first-Shows :
        Shows (Is log list) (λ a. Is (tried way a ∷ log) list) (open_first way call)
    unfolding open_first
    open_first-Shows = record {
      at = λ s p.
          let answer = call s.world in
          entered answer.0 s _ p (opens_first answer.0 (record s { world = answer.1 }));
    }

    pub open_second-Shows :
        Shows (Is log list) (λ a. Is (tried way a ∷ log) list) (open_second way call)
    unfolding open_second
    open_second-Shows = record {
      at = λ s p.
          let answer = call s.world in
          entered answer.0 s _ p (opens_second answer.0 (record s { world = answer.1 }));
    }

    pub open_third-Shows :
        Shows (Is log list) (λ a. Is (tried way a ∷ log) list) (open_third way call)
    unfolding open_third
    open_third-Shows = record {
      at = λ s p.
          let answer = call s.world in
          entered answer.0 s _ p (opens_third answer.0 (record s { world = answer.1 }));
    }

  closing_kept :
      (sys : System W) (slot : Option ℕ) (s : State W)
      → ((closing sys slot s).log ≡ s.log) × (changes (closing sys slot s).trace ≡ changes s.trace)
  closing_kept sys none s = (refl, refl)
  closing_kept sys (some d) s = (refl, refl)

  -- The closing of the slots adds nothing to the log and no change.
  pub close_slots_kept :
      (sys : System W) (s : State W)
      → ((close_slots sys s).log ≡ s.log) × (changes (close_slots sys s).trace ≡ changes s.trace)
  unfolding close_slots
  close_slots_kept sys s =
      let u = closing sys s.slots.first s in
      let v = closing sys s.slots.second u in
      let a = closing_kept sys s.slots.first s in
      let b = closing_kept sys s.slots.second u in
      let c = closing_kept sys s.slots.third v in (c.0 ∙ b.0 ∙ a.0, c.1 ∙ b.1 ∙ a.1)

-- What an operation promises, with the evidence of its log.
abbrev pub Proven :
    {W A : Type 0}
    → (ℕ → ℕ)
    → (A → List Event → List Deed → Type 0)
    → Result Failure A × State W
    → Type 0
Proven w Q (ok a, s) = (opens w s.trace ≡ closes w s.trace) × Q a s.log (changes s.trace)
Proven w Q (err e, s) =
    (opens w s.trace ≡ closes w s.trace) × ((e ≡ unknown) ⊎ Undone (changes s.trace))

module _ {W A : Type 0} (w : ℕ → ℕ) (sys : System W) (R : A → List Deed → Type 0)
    (Q : A → List Event → List Deed → Type 0) where
  pub close_slots-Proven :
      (r : Result Failure A) (s : State W)
      → Promised w R (r, close_slots sys s)
      → Shown (λ a s. Q a s.log (changes s.trace)) (r, s)
      → Proven w Q (r, close_slots sys s)
  close_slots-Proven (ok a) s (balanced, h) q =
      let (e, f) = close_slots_kept sys s in
      (
        balanced,
        subst (λ l. Q a l (changes (close_slots sys s).trace)) (sym e)
            (subst (λ t. Q a s.log t) (sym f) q),
      )
  close_slots-Proven (err e) s h q = h
