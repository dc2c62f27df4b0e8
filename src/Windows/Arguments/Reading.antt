-- ===== src/Windows/Arguments/Reading.antt =====
-- The documented rules by which a Windows program splits its command line into arguments, and the
-- round trip: what `build_wide_arguments` writes is read back as the items.
use native.Mathlib.Nat.{le_refl}
use yaca.Base.{
  ℕ, zero, suc, ◌+◌, ◌*◌, ◌/◌, ◌%◌, ◌≤◌, Bool, true, false, not, ◌&&◌, ◌||◌, ◌≢◌, List, [], ◌∷◌,
  ◌++◌, append_assoc, append-nil, ◌≡◌, refl, ap, sym, arith, ◌∙◌, length, drop, replicate, ◌==◌,
  if◌then◌else◌, Bool-cases, inl, inr, ==_iff,
}
use yaca.Windows.Arguments.{
  Wide, backslash, quote, space, leading_backslashes, append_loop, append_quoted_windows_argument,
  write_items, write_more,
}
use yaca.Windows.Arguments.Quoting.{
  ends, stops, run_lem, run_spells, append_end, append_quote, append_plain,
}

-- Between two arguments, or inside one: whether a quotation is open, how many backslashes came
-- last, and what the argument holds so far.
pub data Mode : Type 0 where
  between : Mode
  inside : Bool → ℕ → Wide → Mode

abbrev pub is_blank : ℕ → Bool
is_blank unit = (unit == space) || (unit == b'\t')

-- Backslashes stand for themselves unless a quotation mark follows: then each pair is one
-- backslash, and a backslash left over makes the mark a literal one. A blank outside a quotation
-- ends the argument.
pub step_inside : Bool → ℕ → Wide → ℕ → Mode × List Wide
step_inside open_quote n held unit =
    let literal = held ++ replicate n backslash in
    let halved = held ++ replicate (n / 2) backslash in
    if unit == backslash
    then (inside open_quote (n + 1) held, [])
    else if unit == quote
    then (if n % 2 == 1
        then (inside open_quote 0 (halved ++ quote ∷ []), [])
        else (inside (not open_quote) 0 halved, []))
    else if not open_quote && is_blank unit
    then (between, literal ∷ [])
    else (inside open_quote 0 (literal ++ unit ∷ []), [])

pub step : Mode → ℕ → Mode × List Wide
step between unit = if is_blank unit then (between, []) else step_inside false 0 [] unit
step (inside open_quote n held) unit = step_inside open_quote n held unit

pub read_from : Mode → Wide → List Wide
read_from between [] = []
read_from (inside open_quote n held) [] = (held ++ replicate n backslash) ∷ []
read_from mode (unit ∷ units) = let (mode', done) = step mode unit in done ++ read_from mode' units

abbrev pub read_arguments : Wide → List Wide
read_arguments = read_from between

read_run :
    (b n : ℕ) (q : Bool) (held t : Wide)
    → read_from (inside q n held) (replicate b backslash ++ t) ≡ read_from (inside q (n + b) held) t
unfolding read_from step step_inside
read_run zero n q held t = ap (λ k. read_from (inside q k held) t) (omega arith)
read_run (suc b) n q held t =
    read_run b (n + 1) q held t ∙ ap (λ k. read_from (inside q k held) t) (omega arith)

read_step :
    (q : Bool) (n unit : ℕ) (held t : Wide) {m : Mode} {done : List Wide}
    → step_inside q n held unit ≡ (m, done)
    → read_from (inside q n held) (unit ∷ t) ≡ done ++ read_from m t
unfolding read_from step
read_step q n unit held t e = ap (λ r. r.1 ++ read_from r.0 t) e

step_pairs :
    (b : ℕ) (held : Wide)
    → step_inside true (b * 2) held quote ≡ (inside false 0 (held ++ replicate b backslash), [])
unfolding step_inside
step_pairs b held =
    let even : (b * 2 % 2 == 1) ≡ false = ground arith in
    let half : b * 2 / 2 ≡ b = omega arith in rw (even, half)

step_odd :
    (b : ℕ) (held : Wide)
    → step_inside true (b * 2 + 1) held quote
      ≡ (inside true 0 ((held ++ replicate b backslash) ++ quote ∷ []), [])
unfolding step_inside
step_odd b held =
    let odd : ((b * 2 + 1) % 2 == 1) ≡ true = ground arith in
    let half : (b * 2 + 1) / 2 ≡ b = omega arith in rw (odd, half)

step_plain :
    (n c : ℕ) (held : Wide)
    → c ≢ backslash
    → (c == quote) ≡ false
    → step_inside true n held c ≡ (inside true 0 ((held ++ replicate n backslash) ++ c ∷ []), [])
unfolding step_inside
step_plain n c held h k = let other : (c == backslash) ≡ false = ground arith in rw (other, k)

step_mark : (held : Wide) → step_inside false 0 held quote ≡ (inside true 0 held, [])
unfolding step_inside
step_mark held = rw append-nil

step_blank : (held : Wide) → step_inside false 0 held space ≡ (between, held ∷ [])
unfolding step_inside
step_blank held = rw append-nil

-- A run, and the unit that stands behind it.
module _ (b : ℕ) (held t : Wide) where
  read_pairs :
      read_from (inside true 0 held) (replicate (b * 2) backslash ++ quote ∷ t)
      ≡ read_from (inside false 0 (held ++ replicate b backslash)) t
  read_pairs =
      read_run (b * 2) 0 true held (quote ∷ t)
      ∙ ap (λ k. read_from (inside true k held) (quote ∷ t)) (omega arith)
      ∙ read_step true (b * 2) quote held t (step_pairs b held)

  read_odd :
      read_from (inside true 0 held) (replicate (b * 2) backslash ++ backslash ∷ quote ∷ t)
      ≡ read_from (inside true 0 (held ++ (replicate b backslash ++ quote ∷ []))) t
  unfolding read_from step step_inside
  read_odd =
      read_run (b * 2) 0 true held (backslash ∷ quote ∷ t)
      ∙ ap (λ k. read_from (inside true (k + 1) held) (quote ∷ t)) (omega arith)
      ∙ read_step true (b * 2 + 1) quote held t (step_odd b held)
      ∙ ap (λ x. read_from (inside true 0 x) t) (append_assoc held (replicate b backslash) _)

  read_plain :
      (c : ℕ)
      → c ≢ backslash
      → (c == quote) ≡ false
      → read_from (inside true 0 held) (replicate b backslash ++ c ∷ t)
        ≡ read_from (inside true 0 (held ++ (replicate b backslash ++ c ∷ []))) t
  read_plain c h k =
      read_run b 0 true held (c ∷ t)
      ∙ ap (λ n. read_from (inside true n held) (c ∷ t)) (omega arith)
      ∙ read_step true b c held t (step_plain b c held h k)
      ∙ ap (λ x. read_from (inside true 0 x) t) (append_assoc held (replicate b backslash) _)

module _ (unit : ℕ) (units : Wide) where
  abbrev run : ℕ
  run = leading_backslashes (unit ∷ units)

  -- The argument is its run, the unit behind it and the rest.
  spelled :
      (held : Wide) (c : ℕ) (rest : Wide)
      → drop run (unit ∷ units) ≡ c ∷ rest
      → (held ++ (replicate run backslash ++ c ∷ [])) ++ rest ≡ held ++ unit ∷ units
  spelled held c rest e =
      append_assoc held (replicate run backslash ++ c ∷ []) rest
      ∙ ap (λ x. held ++ x)
          (append_assoc (replicate run backslash) (c ∷ []) rest
            ∙ ap (λ x. replicate run backslash ++ x) (sym e)
            ∙ run_spells (unit ∷ units))

  spelled_end :
      (held : Wide)
      → drop run (unit ∷ units) ≡ []
      → held ++ replicate run backslash ≡ held ++ unit ∷ units
  spelled_end held e =
      ap (λ x. held ++ x)
        (sym (append-nil (replicate run backslash))
          ∙ ap (λ x. replicate run backslash ++ x) (sym e)
          ∙ run_spells (unit ∷ units))

append_nothing : (fuel : ℕ) → append_loop fuel [] ≡ []
unfolding append_loop
append_nothing fuel = refl

read_body :
    (fuel : ℕ) (value held t : Wide)
    → length value ≤ fuel
    → read_from (inside true 0 held) (append_loop fuel value ++ quote ∷ t)
      ≡ read_from (inside false 0 (held ++ value)) t
read_body fuel [] held t h =
    ap (λ x. read_from (inside true 0 held) (x ++ quote ∷ t)) (append_nothing fuel)
    ∙ read_pairs 0 held t
read_body zero (unit ∷ units) held t h = absurd (omega arith)
read_body (suc fuel) (unit ∷ units) held t h =
    let n = leading_backslashes (unit ∷ units) in
    elim (run_lem (unit ∷ units)) [
      | ends e ↦
          ap (λ x. read_from (inside true 0 held) (x ++ quote ∷ t)) (append_end fuel unit units e)
          ∙ read_pairs n held t
          ∙ ap (λ x. read_from (inside false 0 x) t) (spelled_end unit units held e)
      | stops c rest e ne lt ↦
          let longer = held ++ (replicate n backslash ++ c ∷ []) in
          let later = read_body fuel rest longer t (omega arith) in
          let whole = ap (λ x. read_from (inside false 0 x) t) (spelled unit units held c rest e) in
          elim (Bool-cases (c == quote)) [
            | inl q ↦
                let mark = (==_iff c quote).0 q in
                ap (λ x. read_from (inside true 0 held) (x ++ quote ∷ t))
                  (append_quote fuel unit units c rest e mark)
                ∙ ap (λ x. read_from (inside true 0 held) x)
                    (append_assoc (replicate (n * 2) backslash)
                      (backslash ∷ quote ∷ append_loop fuel rest) (quote ∷ t))
                ∙ read_odd n held (append_loop fuel rest ++ quote ∷ t)
                ∙ ap
                    (λ x.
                      read_from (inside true 0 (held ++ (replicate n backslash ++ x ∷ [])))
                        (append_loop fuel rest ++ quote ∷ t))
                    (sym mark)
                ∙ later
                ∙ whole
            | inr q ↦
                ap (λ x. read_from (inside true 0 held) (x ++ quote ∷ t))
                  (append_plain fuel unit units c rest e q)
                ∙ ap (λ x. read_from (inside true 0 held) x)
                    (append_assoc (replicate n backslash) (c ∷ append_loop fuel rest) (quote ∷ t))
                ∙ read_plain n held (append_loop fuel rest ++ quote ∷ t) c ne q
                ∙ later
                ∙ whole
          ]
    ]

-- A quoted argument opens and closes one quotation, whatever it holds.
read_quoted :
    (item t : Wide)
    → read_from between (append_quoted_windows_argument item ++ t)
      ≡ read_from (inside false 0 item) t
unfolding append_quoted_windows_argument read_from step
read_quoted item t =
    read_step false 0 quote [] _ (step_mark [])
    ∙ ap (λ x. read_from (inside true 0 []) x)
        (append_assoc (append_loop (length item) item) (quote ∷ []) t)
    ∙ read_body (length item) item [] t (le_refl _)

read_more :
    (items : List Wide) (held : Wide)
    → read_from (inside false 0 held) (write_more items) ≡ held ∷ items
unfolding write_more
read_more [] held = unfold read_from in ap (λ x. x ∷ []) (append-nil held)
read_more (item ∷ items) held =
    read_step false 0 space held _ (step_blank held)
    ∙ ap (λ x. held ∷ x) (read_quoted item (write_more items) ∙ read_more items item)

-- The command line of a list of items is read back as these items, with their quotation marks,
-- backslashes and blanks.
pub read-write_items : (items : List Wide) → read_arguments (write_items items) ≡ items
unfolding write_items
read-write_items [] = unfold read_from in refl
read-write_items (item ∷ items) = read_quoted item (write_more items) ∙ read_more items item
