-- ===== src/Direct/Rules/Closing.antt =====
-- The end of an operation: the slots are closed.
use yaca.Base.{ℕ, ◌+◌, Option, none, some, List, ◌≡◌, ◌⊎◌, refl, subst, sym, ◌∙◌, arith}
use yaca.Base.Result.{Result, ok, err}
use yaca.Direct.System.{System, State, Failure, unknown, Deed, closing, close_slots}
use yaca.Direct.Rules.{Ends, Undone, changes, opens, closes, weight_of, in_slots}

-- What an operation promises: every descriptor is closed; with a result `Q` holds of it and of the
-- changes; else no change is left behind, or the failure says that the outcome is unknown.
abbrev pub Promised :
    {W A : Type 0} → (ℕ → ℕ) → (A → List Deed → Type 0) → Result Failure A × State W → Type 0
Promised w Q (ok a, s) = (opens w s.trace ≡ closes w s.trace) × Q a (changes s.trace)
Promised w Q (err e, s) =
    (opens w s.trace ≡ closes w s.trace) × ((e ≡ unknown) ⊎ Undone (changes s.trace))

module _ (w : ℕ → ℕ) {W : Type 0} (sys : System W) where
  -- The changes are kept, the weight of a slot is given back.
  record Closes (slot : Option ℕ) (s t : State W) : Type 0 where
    slots_kept : t.slots ≡ s.slots
    changes_kept : changes t.trace ≡ changes s.trace
    opens_kept : opens w t.trace ≡ opens w s.trace
    closed_more : closes w t.trace ≡ closes w s.trace + weight_of w slot

  closing-Closes : (slot : Option ℕ) (s : State W) → Closes slot s (closing sys slot s)
  closing-Closes none s = record {
    slots_kept = refl;
    changes_kept = refl;
    opens_kept = refl;
    closed_more = omega arith;
  }
  closing-Closes (some d) s = record {
    slots_kept = refl;
    changes_kept = refl;
    opens_kept = refl;
    closed_more = omega arith;
  }

  record Ended (s t : State W) : Type 0 where
    all_closed :
        opens w s.trace ≡ closes w s.trace + in_slots w s.slots → opens w t.trace ≡ closes w t.trace
    same_changes : changes t.trace ≡ changes s.trace

  close_slots-Ended : (s : State W) → Ended s (close_slots sys s)
  unfolding close_slots
  close_slots-Ended s =
      let u = closing sys s.slots.first s in
      let v = closing sys s.slots.second u in
      let a = closing-Closes s.slots.first s in
      let b = closing-Closes s.slots.second u in
      let c = closing-Closes s.slots.third v in
      record {
        all_closed = λ h. omega (
          arith, h, a.opens_kept, a.closed_more, b.opens_kept, b.closed_more, c.opens_kept,
          c.closed_more,
        );
        same_changes = c.changes_kept ∙ b.changes_kept ∙ a.changes_kept;
      }

  pub close_slots-Promised :
      {A : Type 0}
      → (Q : A → List Deed → Type 0) (ended : Result Failure A × State W)
      → Ends w
          (λ a slots trace.
            Q a (changes trace) × (opens w trace ≡ closes w trace + in_slots w slots))
          ended
      → Promised w Q (ended.0, close_slots sys ended.1)
  close_slots-Promised Q (ok a, s) (h, k) =
      let e = close_slots-Ended s in (e.all_closed k, subst (Q a) (sym e.same_changes) h)
  close_slots-Promised Q (err f, s) h =
      let e = close_slots-Ended s in
      (
        e.all_closed h.held,
        subst (λ list. (f ≡ unknown) ⊎ Undone list) (sym e.same_changes) h.harmless,
      )
