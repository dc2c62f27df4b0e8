-- ===== src/Direct/Rules.antt =====
-- What holds behind an action, by how it ended: one rule for each way to build an action. The
-- predicates are about the descriptors that are held and about what was done, never about the world.
pub mod Calls
pub mod Closing
use yaca.Base.{
  ℕ, ◌+◌, Bool, true, false, Option, none, some, List, [], ◌∷◌, ◌≡◌, ◌⊎◌, inl, inr, refl, sym,
  subst, ap, ◌∙◌, arith, Bytes, Bool-cases, if◌then◌else◌,
}
use yaca.Base.Result.{Result, ok, err}
use yaca.Paths.{SplitResult, split, refused_entry, refused_basename, no_memory}
use yaca.Direct.Facts.{Stat, Identity, identity_from_stat, identity_matches_lua}
use yaca.Direct.System.{
  Look, Event, System, State, Slots, Failure, unknown, target_changed, raised, invalid_path,
  storage, Deed, opened, closed, renamed, exchanged, unlinked, Action, continue, pure, fail,
  change_nothing, look, ◌>>=◌, ◌>>◌, observe, require, or_fail, open_first, open_second, keep_first,
  keep_second, change, changed, parts, is_none, Expected, verify, verdict, restore, close_slots,
  is_absent, closing,
}

-- The changes of directories.
abbrev pub changes : List Deed → List Deed
changes [] = []
changes (opened d ∷ trace) = changes trace
changes (closed d ∷ trace) = changes trace
changes (renamed p n q m ∷ trace) = renamed p n q m ∷ changes trace
changes (exchanged p n m ∷ trace) = exchanged p n m ∷ changes trace
changes (unlinked p n ∷ trace) = unlinked p n ∷ changes trace

abbrev pub weight_of : (ℕ → ℕ) → Option ℕ → ℕ
weight_of w none = 0
weight_of w (some d) = w d

abbrev pub opens : (ℕ → ℕ) → List Deed → ℕ
opens w [] = 0
opens w (opened d ∷ trace) = w d + opens w trace
opens w (deed ∷ trace) = opens w trace

abbrev pub closes : (ℕ → ℕ) → List Deed → ℕ
closes w [] = 0
closes w (closed d ∷ trace) = w d + closes w trace
closes w (deed ∷ trace) = closes w trace

-- Nothing was changed, or an entry was moved and put back, or two were exchanged twice.
pub data Undone : List Deed → Type 0 where
  untouched : Undone []
  put_back :
      (p : ℕ) (n : Bytes) (q : ℕ) (m : Bytes) → Undone (renamed q m p n ∷ renamed p n q m ∷ [])
  exchanged_back : (p : ℕ) (n m : Bytes) → Undone (exchanged p n m ∷ exchanged p n m ∷ [])

abbrev pub in_slots : (ℕ → ℕ) → Slots → ℕ
in_slots w slots = weight_of w slots.first + weight_of w slots.second + weight_of w slots.third

module _ (w : ℕ → ℕ) where
  -- Each descriptor that was opened is closed or held; the changes are those of the list.
  pub record Stage (list : List Deed) (slots : Slots) (trace : List Deed) : Type 0 where
    pub balanced : opens w trace ≡ closes w trace + in_slots w slots
    pub listed : changes trace ≡ list

  -- A failure that is not `unknown` has left no change behind.
  pub record Failed (e : Failure) (slots : Slots) (trace : List Deed) : Type 0 where
    pub held : opens w trace ≡ closes w trace + in_slots w slots
    pub harmless : (e ≡ unknown) ⊎ Undone (changes trace)

  -- A failure that is not `unknown` is harmless; else `Q` holds with the result.
  abbrev pub Ends :
      {W A : Type 0} → (A → Slots → List Deed → Type 0) → Result Failure A × State W → Type 0
  Ends Q (ok a, s) = Q a s.slots s.trace
  Ends Q (err e, s) = Failed e s.slots s.trace

  -- Where `P` holds before, so it ends.
  pub record Leads {W A : Type 0} (P : Slots → List Deed → Type 0)
      (Q : A → Slots → List Deed → Type 0) (m : Action W A) : Type 0 where
    pub at : (s : State W) → P s.slots s.trace → Ends Q (m s)

  -- A stage behind which every failure is harmless, and one behind which `unknown` is.
  abbrev pub Fails : (Slots → List Deed → Type 0) → Type 0
  Fails P = (e : Failure) (slots : Slots) (trace : List Deed) → P slots trace → Failed e slots trace

  pub Stage→unknown :
      (list : List Deed) (slots : Slots) (trace : List Deed)
      → Stage list slots trace
      → Failed unknown slots trace
  Stage→unknown list slots trace h = record { held = h.balanced; harmless = inl refl }

  pub Undone→Fails : (list : List Deed) → Undone list → Fails (Stage list)
  Undone→Fails list u e slots trace h = record {
    held = h.balanced;
    harmless = inr (subst Undone (sym h.listed) u);
  }

  module _ {W : Type 0} where
    continue-Ends :
        {A B : Type 0}
        → (Q : A → Slots → List Deed → Type 0) (R : B → Slots → List Deed → Type 0)
          (f : A → Action W B) (r : Result Failure A) (t : State W)
        → Ends Q (r, t)
        → ((a : A) → Leads (Q a) R (f a))
        → Ends R (continue f r t)
    continue-Ends Q R f (ok a) t h k = (k a).at t h
    continue-Ends Q R f (err e) t h k = h

    pub >>=-Leads :
        {A B : Type 0}
        → {P : Slots → List Deed → Type 0} → {Q : A → Slots → List Deed → Type 0}
        → {R : B → Slots → List Deed → Type 0} → {m : Action W A} → {f : A → Action W B}
        → Leads P Q m
        → ((a : A) → Leads (Q a) R (f a))
        → Leads P R (m >>= f)
    unfolding ◌>>=◌
    >>=-Leads {Q = Q} {R = R} {m = m} {f = f} h k = record {
      at = λ s p. continue-Ends Q R f (m s).0 (m s).1 (h.at s p) k;
    }

    pub >>-Leads :
        {A B : Type 0}
        → {P : Slots → List Deed → Type 0} → {Q : A → Slots → List Deed → Type 0}
        → {R : B → Slots → List Deed → Type 0} → {m : Action W A} → {n : Action W B} → Leads P Q m
        → ((a : A) → Leads (Q a) R n)
        → Leads P R (m >> n)
    unfolding ◌>>◌
    >>-Leads h k = >>=-Leads h k

    -- A fact about a result, in the rest.
    pub with_fact :
        {A : Type 0}
        → {F : Type 0} → {P : Slots → List Deed → Type 0} → {Q : A → Slots → List Deed → Type 0}
        → {m : Action W A} → (F → Leads P Q m)
        → Leads (λ slots trace. F × P slots trace) Q m
    with_fact h = record { at = λ s p. (h p.0).at s p.1 }

    pub pure-Leads :
        {A : Type 0}
        → {P : Slots → List Deed → Type 0} → {Q : A → Slots → List Deed → Type 0} → (a : A)
        → ((slots : Slots) (trace : List Deed) → P slots trace → Q a slots trace)
        → Leads {W = W} P Q (pure a)
    unfolding pure
    pure-Leads a h = record { at = λ s p. h s.slots s.trace p }

    pub fail-Leads :
        {A : Type 0}
        → {P : Slots → List Deed → Type 0} → {Q : A → Slots → List Deed → Type 0} → (e : Failure)
        → ((slots : Slots) (trace : List Deed) → P slots trace → Failed e slots trace)
        → Leads {W = W} P Q (fail e)
    unfolding fail
    fail-Leads e h = record { at = λ s p. h s.slots s.trace p }

    pub if-Leads :
        {A : Type 0}
        → {P : Slots → List Deed → Type 0} → {Q : A → Slots → List Deed → Type 0}
        → {m n : Action W A} → (b : Bool) → (b ≡ true → Leads P Q m)
        → (b ≡ false → Leads P Q n)
        → Leads P Q (if b then m else n)
    if-Leads true h k = h refl
    if-Leads false h k = k refl

    pub observe-Leads :
        {P : Slots → List Deed → Type 0}
        → (sys : System W) (what : Look) → Leads P (λ a. P) (observe sys what)
    unfolding observe
    observe-Leads sys what = record { at = λ s p. p }

    pub look-Leads :
        {A : Type 0}
        → {P : Slots → List Deed → Type 0} → (event : A → Event) (step : W → A × W)
        → Leads P (λ a. P) (look event step)
    unfolding look
    look-Leads event step = record { at = λ s p. p }

    pub change_nothing-Leads :
        {P : Slots → List Deed → Type 0}
        → (call : W → Option ℕ × W) → Leads P (λ a. P) (change_nothing call)
    unfolding change_nothing
    change_nothing-Leads call = record { at = λ s p. p }

    require_at :
        (P : Slots → List Deed → Type 0) (b : Bool) (e : Failure) (s : State W)
        → ((slots : Slots) (trace : List Deed) → P slots trace → Failed e slots trace)
        → P s.slots s.trace
        → Ends (λ a slots trace. (b ≡ true) × P slots trace) (require b e s)
    unfolding require
    require_at P true e s f h = (refl, h)
    require_at P false e s f h = f s.slots s.trace h

    pub require-Leads :
        {P : Slots → List Deed → Type 0}
        → (b : Bool) (e : Failure)
        → ((slots : Slots) (trace : List Deed) → P slots trace → Failed e slots trace)
        → Leads {W = W} P (λ a slots trace. (b ≡ true) × P slots trace) (require b e)
    require-Leads {P = P} b e f = record { at = λ s p. require_at P b e s f p }

    pub or_fail-Leads :
        {A : Type 0}
        → {P : Slots → List Deed → Type 0} → (e : Failure) (r : Result ℕ A)
        → ((slots : Slots) (trace : List Deed) → P slots trace → Failed e slots trace)
        → Leads {W = W} P (λ a slots trace. (r ≡ ok a) × P slots trace) (or_fail e r)
    unfolding or_fail
    or_fail-Leads e (ok a) f = record { at = λ s p. (refl, p) }
    or_fail-Leads e (err error) f = record { at = λ s p. f s.slots s.trace p }

    pub parts-Leads :
        {P : Slots → List Deed → Type 0}
        → (r : SplitResult) → Fails P
        → Leads {W = W} P (λ a slots trace. (r ≡ split a.0 a.1) × P slots trace) (parts r)
    unfolding parts
    parts-Leads (split parent name) f = record { at = λ s p. (refl, p) }
    parts-Leads refused_entry f = record { at = λ s p. f invalid_path s.slots s.trace p }
    parts-Leads refused_basename f = record { at = λ s p. f invalid_path s.slots s.trace p }
    parts-Leads no_memory f = record { at = λ s p. f storage s.slots s.trace p }

    weaken_at :
        {A : Type 0}
        → (Q R : A → Slots → List Deed → Type 0) (ended : Result Failure A × State W) → Ends Q ended
        → ((a : A) (slots : Slots) (trace : List Deed) → Q a slots trace → R a slots trace)
        → Ends R ended
    weaken_at Q R (ok a, s) h k = k a s.slots s.trace h
    weaken_at Q R (err e, s) h k = h

    pub weaken :
        {A : Type 0}
        → {P : Slots → List Deed → Type 0} → {Q R : A → Slots → List Deed → Type 0}
        → {m : Action W A} → Leads P Q m
        → ((a : A) (slots : Slots) (trace : List Deed) → Q a slots trace → R a slots trace)
        → Leads P R m
    weaken {Q = Q} {R = R} {m = m} h k = record { at = λ s p. weaken_at Q R (m s) (h.at s p) k }
