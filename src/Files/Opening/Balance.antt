-- ===== src/Files/Opening/Balance.antt =====
-- The descriptors of a file that was opened, at the end of its life.
use yaca.Base.{ℕ, ◌+◌, List, [], ◌∷◌, ◌++◌, ◌≡◌, refl, sym, ap, subst, ◌∙◌, arith}
use yaca.Base.Result.{Result, ok, err}
use yaca.Files.{Calls, Failure, Deed, closed, File, State, file_of, l_file_gc}
use yaca.Files.Life.{
  Operation, perform_all, IsUse, looks, reads, moves, flushes, writes, Uses, Over,
  l_file_gc-perform_all,
}
use yaca.Files.Opening.Owned.{Opening, open_file, opens, closes, Owned, open_file-Owned}

IsUse-opens :
    (w : ℕ → ℕ) (d : ℕ) (deed : Deed) (trace : List Deed)
    → IsUse d deed
    → (opens w (deed ∷ trace) ≡ opens w trace) × (closes w (deed ∷ trace) ≡ closes w trace)
IsUse-opens w d deed trace looks = (refl, refl)
IsUse-opens w d deed trace reads = (refl, refl)
IsUse-opens w d deed trace moves = (refl, refl)
IsUse-opens w d deed trace flushes = (refl, refl)
IsUse-opens w d deed trace (writes bytes) = (refl, refl)

-- Uses of a descriptor open and close nothing.
Uses-opens :
    (w : ℕ → ℕ) (d : ℕ) (deeds trace : List Deed)
    → Uses d deeds
    → (opens w (deeds ++ trace) ≡ opens w trace) × (closes w (deeds ++ trace) ≡ closes w trace)
Uses-opens w d [] trace h = (refl, refl)
Uses-opens w d (deed ∷ deeds) trace (use_of, h) =
    let (a, b) = IsUse-opens w d deed (deeds ++ trace) use_of in
    let (e, f) = Uses-opens w d deeds trace h in (a ∙ e, b ∙ f)

module _ (w : ℕ → ℕ) {W : Type 0} (sys : Calls W) where
  Over-balance :
      (d : ℕ) (before : List Deed) (file : File) (after : List Deed)
      → Over sys d before file after
      → (opens w after ≡ opens w before) × (closes w after ≡ w d + closes w before)
  Over-balance d before file after h =
      let (a, b) = Uses-opens w d h.uses.deeds before h.uses.uses in
      let e = h.once ∙ ap (λ t. closed d ∷ t) h.uses.grown in
      (ap (λ t. opens w t) e ∙ a, ap (λ t. closes w t) e ∙ ap (λ t. w d + t) b)

  -- The balance behind the finalizer, if the file that is given is used from then on.
  Owned-gc :
      (before : List Deed) (ended : Result Failure File × State W) (file : File)
      (operations : List Operation)
      → Owned w before ended
      → ended.0 ≡ ok file
      → let called = perform_all sys operations file ended.1 in
        let e = l_file_gc sys called.0 called.1 in
        opens w e.1.trace + closes w before ≡ closes w e.1.trace + opens w before
  Owned-gc before (err failure, s) file operations h k = grind (arith, k)
  Owned-gc before (ok found, s) file operations (d, e, h) k =
      subst
        (λ f.
          let called = perform_all sys operations f s in
          let e = l_file_gc sys called.0 called.1 in
          opens w e.1.trace + closes w before ≡ closes w e.1.trace + opens w before)
        (sym e ∙ grind (arith, k))
        (let called = perform_all sys operations (file_of d) s in
          let (a, b) =
            Over-balance d s.trace _ (l_file_gc sys called.0 called.1).1.trace
              (l_file_gc-perform_all sys operations d s) in
          omega (arith, a, b, h))

  -- A file that one of the four functions has opened: after any calls on it, whatever the system
  -- answers, and then its finalizer, all descriptors that were opened since before the opening are
  -- closed, with any weight for a descriptor.
  pub l_file_gc-open_file :
      (opening : Opening) (s : State W) (file : File) (operations : List Operation)
      → (open_file sys opening s).0 ≡ ok file
      → let called = perform_all sys operations file (open_file sys opening s).1 in
        let e = l_file_gc sys called.0 called.1 in
        opens w e.1.trace + closes w s.trace ≡ closes w e.1.trace + opens w s.trace
  l_file_gc-open_file opening s file operations h =
      Owned-gc s.trace (open_file sys opening s) file operations (open_file-Owned w sys opening s) h
