-- ===== src/Direct/Rules/Calls.antt =====
-- The rules for the checks of identities and for the calls that open descriptors or change a
-- directory.
use yaca.Base.{ℕ, Bool, true, false, Option, none, some, List, ◌∷◌, ◌≡◌, refl, ap, arith, Bytes}
use yaca.Base.Result.{Result, ok, err}
use yaca.Direct.Facts.{Stat, Identity, identity_from_stat, identity_matches_lua}
use yaca.Direct.System.{
  Way, entry_at, System, State, Slots, Failure, unknown, target_changed, raised, Deed, renamed,
  exchanged, unlinked, require, open_first, open_second, open_third, keep_third, keep_first,
  keep_second, change, changed, is_none, Expected, verify, verdict, restore, is_absent,
}
use yaca.Direct.Rules.{
  Stage, Failed, Leads, Fails, Stage→unknown, >>=-Leads, >>-Leads, with_fact, pure-Leads,
  fail-Leads, if-Leads, observe-Leads, require-Leads, or_fail-Leads,
}

-- The stat is what the caller expects.
pub record Matches (expected : Expected) (s : Stat) : Type 0 where
  pub identity : Identity
  pub found : identity_from_stat s ≡ some identity
  pub matched : identity_matches_lua expected.get identity ≡ true

module _ (w : ℕ → ℕ) where
  -- Behind a change, by its answer.
  abbrev pub Changed : Deed → List Deed → Option ℕ → Slots → List Deed → Type 0
  Changed deed list none = Stage w (deed ∷ list)
  Changed deed list (some error) = Stage w list

  -- The third slot is still free, the second one, and all.
  abbrev pub ThirdFree : List Deed → Slots → List Deed → Type 0
  ThirdFree list slots trace = (slots.third ≡ none) × Stage w list slots trace

  abbrev pub SecondFree : List Deed → Slots → List Deed → Type 0
  SecondFree list slots trace = (slots.second ≡ none) × ThirdFree list slots trace

  abbrev pub BothFree : List Deed → Slots → List Deed → Type 0
  BothFree list slots trace = (slots.first ≡ none) × SecondFree list slots trace

module _ (w : ℕ → ℕ) {W : Type 0} where
  verdict-Leads :
      {P : Slots → List Deed → Type 0}
      → (expected : Expected) (found : Stat) (identity : Option Identity) → Fails w P
      → identity_from_stat found ≡ identity
      → Leads w {W = W} P
          (λ a slots trace. Matches expected a × P slots trace)
          (verdict expected found identity)
  verdict-Leads expected found none fails e = fail-Leads w target_changed (fails target_changed)
  verdict-Leads expected found (some identity) fails e =
      if-Leads w expected.raises (λ r. fail-Leads w raised (fails raised))
        λ r.
          if-Leads w (identity_matches_lua expected.get identity)
            (λ m.
              pure-Leads w found
                λ slots trace p. (record { identity = identity; found = e; matched = m }, p))
            λ m. fail-Leads w target_changed (fails target_changed)

  pub verify-Leads :
      {P : Slots → List Deed → Type 0}
      → (expected : Expected) (r : Result ℕ Stat) → Fails w P
      → Leads w {W = W} P (λ a slots trace. Matches expected a × P slots trace) (verify expected r)
  unfolding verify
  verify-Leads expected (ok found) fails =
      verdict-Leads expected found (identity_from_stat found) fails refl
  verify-Leads expected (err error) fails = fail-Leads w target_changed (fails target_changed)

  rename-Changed :
      (list : List Deed) (answer : Option ℕ) (p : ℕ) (n : Bytes) (q : ℕ) (m : Bytes) (s : State W)
      → Stage w list s.slots s.trace
      → let t = changed answer (renamed p n q m) s in
        Changed w (renamed p n q m) list answer t.slots t.trace
  rename-Changed list none p n q m s h = record {
    balanced = h.balanced;
    listed = ap (λ t. renamed p n q m ∷ t) h.listed;
  }
  rename-Changed list (some error) p n q m s h = h

  pub rename-Leads :
      (list : List Deed) (call : W → Option ℕ × W) (p : ℕ) (n : Bytes) (q : ℕ) (m : Bytes)
      → Leads w (Stage w list) (Changed w (renamed p n q m) list) (change call (renamed p n q m))
  unfolding change
  rename-Leads list call p n q m = record {
    at = λ s h.
        rename-Changed list (call s.world).0 p n q m (record s { world = (call s.world).1 }) h;
  }

  unlink-Changed :
      (list : List Deed) (answer : Option ℕ) (p : ℕ) (n : Bytes) (s : State W)
      → Stage w list s.slots s.trace
      → let t = changed answer (unlinked p n) s in
        Changed w (unlinked p n) list answer t.slots t.trace
  unlink-Changed list none p n s h = record {
    balanced = h.balanced;
    listed = ap (λ t. unlinked p n ∷ t) h.listed;
  }
  unlink-Changed list (some error) p n s h = h

  pub unlink-Leads :
      (list : List Deed) (call : W → Option ℕ × W) (p : ℕ) (n : Bytes)
      → Leads w (Stage w list) (Changed w (unlinked p n) list) (change call (unlinked p n))
  unfolding change
  unlink-Leads list call p n = record {
    at = λ s h. unlink-Changed list (call s.world).0 p n (record s { world = (call s.world).1 }) h;
  }

  keep_first-Stage :
      (list : List Deed) (answer : Result ℕ ℕ) (s : State W)
      → BothFree w list s.slots s.trace
      → let t = keep_first answer s in SecondFree w list t.slots t.trace
  keep_first-Stage list (ok d) s (e, (f, (g, h))) =
      (f, (g, record { balanced = ground (arith, h.balanced, e); listed = h.listed }))
  keep_first-Stage list (err error) s (e, h) = h

  pub open_first-Leads :
      (list : List Deed) (way : Way) (call : W → Result ℕ ℕ × W)
      → Leads w (BothFree w list) (λ a. SecondFree w list) (open_first way call)
  unfolding open_first
  open_first-Leads list way call = record {
    at = λ s h. keep_first-Stage list (call s.world).0 (record s { world = (call s.world).1 }) h;
  }

  keep_second-Stage :
      (list : List Deed) (answer : Result ℕ ℕ) (s : State W)
      → SecondFree w list s.slots s.trace
      → let t = keep_second answer s in ThirdFree w list t.slots t.trace
  keep_second-Stage list (ok d) s (e, (f, h)) =
      (f, record { balanced = ground (arith, h.balanced, e); listed = h.listed })
  keep_second-Stage list (err error) s (e, h) = h

  pub open_second-Leads :
      (list : List Deed) (way : Way) (call : W → Result ℕ ℕ × W)
      → Leads w (SecondFree w list) (λ a. ThirdFree w list) (open_second way call)
  unfolding open_second
  open_second-Leads list way call = record {
    at = λ s h. keep_second-Stage list (call s.world).0 (record s { world = (call s.world).1 }) h;
  }

  keep_third-Stage :
      (list : List Deed) (answer : Result ℕ ℕ) (s : State W)
      → ThirdFree w list s.slots s.trace
      → let t = keep_third answer s in Stage w list t.slots t.trace
  keep_third-Stage list (ok d) s (e, h) = record {
    balanced = ground (arith, h.balanced, e);
    listed = h.listed;
  }
  keep_third-Stage list (err error) s (e, h) = h

  pub open_third-Leads :
      (list : List Deed) (way : Way) (call : W → Result ℕ ℕ × W)
      → Leads w (ThirdFree w list) (λ a. Stage w list) (open_third way call)
  unfolding open_third
  open_third-Leads list way call = record {
    at = λ s h. keep_third-Stage list (call s.world).0 (record s { world = (call s.world).1 }) h;
  }

  exchange-Changed :
      (list : List Deed) (answer : Option ℕ) (p : ℕ) (n m : Bytes) (s : State W)
      → Stage w list s.slots s.trace
      → let t = changed answer (exchanged p n m) s in
        Changed w (exchanged p n m) list answer t.slots t.trace
  exchange-Changed list none p n m s h = record {
    balanced = h.balanced;
    listed = ap (λ t. exchanged p n m ∷ t) h.listed;
  }
  exchange-Changed list (some error) p n m s h = h

  pub exchange-Leads :
      (list : List Deed) (call : W → Option ℕ × W) (p : ℕ) (n m : Bytes)
      → Leads w (Stage w list) (Changed w (exchanged p n m) list) (change call (exchanged p n m))
  unfolding change
  exchange-Leads list call p n m = record {
    at = λ s h.
        exchange-Changed list (call s.world).0 p n m (record s { world = (call s.world).1 }) h;
  }

  pub refused-Leads :
      (deed : Deed) (list : List Deed) (answer : Option ℕ)
      → Leads w {W = W}
          (Changed w deed list answer)
          (λ a. Stage w (deed ∷ list))
          (require (is_none answer) unknown)
  unfolding require
  refused-Leads deed list none = record { at = λ s h. h }
  refused-Leads deed list (some error) = record { at = λ s h. Stage→unknown w list _ _ h }

  pub require_only :
      {P : Slots → List Deed → Type 0}
      → (b : Bool) (e : Failure)
      → ((slots : Slots) (trace : List Deed) → P slots trace → Failed w e slots trace)
      → Leads w {W = W} P (λ a. P) (require b e)
  unfolding require
  require_only true e f = record { at = λ s p. p }
  require_only false e f = record { at = λ s p. f s.slots s.trace p }

  -- Every failure of `restore` is `unknown`; else the entry is back.
  pub restore-Leads :
      (sys : System W) (p : ℕ) (n : Bytes) (q : ℕ) (m : Bytes) (same : Stat → Bool)
      (list : List Deed)
      → Leads w (Stage w list) (λ a. Stage w (renamed q m p n ∷ list)) (restore sys p n q m same)
  unfolding restore
  restore-Leads sys p n q m same list =
      let lost = Stage→unknown w (renamed q m p n ∷ list) in
      >>=-Leads w (rename-Leads list (sys.rename_no_replace q m p n) q m p n) λ answer.
        >>-Leads w (refused-Leads _ list answer) λ a.
          >>=-Leads w (observe-Leads w sys (entry_at p n)) λ back.
            >>=-Leads w (or_fail-Leads w unknown back lost) λ found. with_fact w λ e.
              >>-Leads w (require-Leads w (same found) unknown lost) λ a. with_fact w λ e.
                >>=-Leads w (observe-Leads w sys (entry_at q m))
                  λ rest. require_only (is_absent rest) unknown lost
