-- ===== src/Windows/Arguments/Quoting.antt =====
-- The measured length is the number of units that are written.
use yaca.Base.{
  ℕ, zero, suc, ◌+◌, ◌-◌, ◌*◌, ◌/◌, ◌≤◌, ◌<◌, true, false, ◌||◌, ◌≢◌, Option, none, some, [], ◌∷◌,
  ◌++◌, ◌≡◌, refl, ap, ap₂, sym, arith, ◌∙◌, length, drop, replicate, ltb, leb, ◌==◌, if◌then◌else◌,
  length-append, length-replicate, Bool-cases, inl, inr, ==_iff,
}
use yaca.Windows.Arguments.{
  Wide, backslash, quote, leading_backslashes, append_loop, length_loop,
  append_quoted_windows_argument, quoted_windows_argument_length,
}

-- Where the run of backslashes ends: at the end of the argument, or before another unit.
pub data Run (value : Wide) : Type 0 where
  ends : drop (leading_backslashes value) value ≡ [] → Run value
  stops :
      (c : ℕ) (rest : Wide)
      → drop (leading_backslashes value) value ≡ c ∷ rest
      → c ≢ backslash
      → length rest < length value
      → Run value

leading-suc :
    (unit : ℕ) (units : Wide)
    → unit ≡ backslash
    → leading_backslashes (unit ∷ units) ≡ suc (leading_backslashes units)
unfolding leading_backslashes
leading-suc unit units e = rw e (omega arith)

leading-zero : (unit : ℕ) (units : Wide) → unit ≢ backslash → leading_backslashes (unit ∷ units) ≡ 0
unfolding leading_backslashes
leading-zero unit units e = ground arith

grow-Run : (unit : ℕ) (units : Wide) → unit ≡ backslash → Run units → Run (unit ∷ units)
grow-Run unit units h (ends e) = ends (rw (leading-suc unit units h) e)
grow-Run unit units h (stops c rest e ne lt) =
    stops c rest (rw (leading-suc unit units h) e) ne (omega arith)

pub run_lem : (value : Wide) → Run value
run_lem [] = ends (unfold leading_backslashes in refl)
run_lem (unit ∷ units) =
    let rest = run_lem units in
    elim (Bool-cases (unit == backslash)) [
      | inl e ↦ grow-Run unit units ((==_iff unit backslash).0 e) rest
      | inr e ↦
          let other : unit ≢ backslash = ground arith in
          stops unit units (rw (leading-zero unit units other)) other (omega arith)
    ]

-- The run and the rest spell the argument.
pub run_spells :
    (value : Wide)
    → replicate (leading_backslashes value) backslash ++ drop (leading_backslashes value) value
      ≡ value
run_spells [] = unfold leading_backslashes in refl
run_spells (unit ∷ units) =
    let rest = run_spells units in
    elim (Bool-cases (unit == backslash)) [
      | inl e ↦
          let same : unit ≡ backslash = (==_iff unit backslash).0 e in
          rw (leading-suc unit units same) (ap₂ ◌∷◌ (sym same) rest)
      | inr e ↦ let other : unit ≢ backslash = ground arith in rw (leading-zero unit units other)
    ]

module _ (fuel unit : ℕ) (units : Wide) where
  abbrev run : ℕ
  run = leading_backslashes (unit ∷ units)

  pub append_end :
      drop run (unit ∷ units) ≡ []
      → append_loop (suc fuel) (unit ∷ units) ≡ replicate (run * 2) backslash
  unfolding append_loop
  append_end e = rw (e, append_loop)

  pub append_quote :
      (c : ℕ) (rest : Wide)
      → drop run (unit ∷ units) ≡ c ∷ rest
      → c ≡ quote
      → append_loop (suc fuel) (unit ∷ units)
        ≡ replicate (run * 2) backslash ++ backslash ∷ quote ∷ append_loop fuel rest
  unfolding append_loop
  append_quote c rest e q = rw (e, append_loop) (rw q refl)

  pub append_plain :
      (c : ℕ) (rest : Wide)
      → drop run (unit ∷ units) ≡ c ∷ rest
      → (c == quote) ≡ false
      → append_loop (suc fuel) (unit ∷ units) ≡ replicate run backslash ++ c ∷ append_loop fuel rest
  unfolding append_loop
  append_plain c rest e q = rw (e, append_loop) (rw q refl)

module _ (fuel unit : ℕ) (units : Wide) where
  length_append_end :
      drop (leading_backslashes (unit ∷ units)) (unit ∷ units) ≡ []
      → length (append_loop (suc fuel) (unit ∷ units)) ≡ leading_backslashes (unit ∷ units) * 2
  length_append_end e = rw (append_end fuel unit units e) (length-replicate _ backslash)

  length_append_quote :
      (c : ℕ) (rest : Wide)
      → drop (leading_backslashes (unit ∷ units)) (unit ∷ units) ≡ c ∷ rest
      → (c == quote) ≡ true
      → length (append_loop (suc fuel) (unit ∷ units))
        ≡ leading_backslashes (unit ∷ units) * 2 + 2 + length (append_loop fuel rest)
  length_append_quote c rest e q =
      let n = leading_backslashes (unit ∷ units) * 2 in
      let written = backslash ∷ quote ∷ append_loop fuel rest in
      rw (append_quote fuel unit units c rest e ((==_iff c quote).0 q)) (
        omega (
          arith,
          length-append (replicate n backslash) written,
          length-replicate {A = ℕ} n backslash,
        ))

  length_append_plain :
      (c : ℕ) (rest : Wide)
      → drop (leading_backslashes (unit ∷ units)) (unit ∷ units) ≡ c ∷ rest
      → (c == quote) ≡ false
      → length (append_loop (suc fuel) (unit ∷ units))
        ≡ leading_backslashes (unit ∷ units) + 1 + length (append_loop fuel rest)
  length_append_plain c rest e q =
      let n = leading_backslashes (unit ∷ units) in
      rw (append_plain fuel unit units c rest e q) (
        omega (
          arith,
          length-append (replicate n backslash) (c ∷ append_loop fuel rest),
          length-replicate {A = ℕ} n backslash,
        ))

module _ (size_max : ℕ) where
  abbrev bounded : ℕ → Option ℕ
  bounded total = if leb total size_max then some total else none

  module _ (fuel unit : ℕ) (units : Wide) (total : ℕ) where
    abbrev run' : ℕ
    run' = leading_backslashes (unit ∷ units)

    length_end :
        drop run' (unit ∷ units) ≡ []
        → length_loop size_max (suc fuel) (unit ∷ units) total
          ≡ (if ltb ((size_max - total) / 2) run' then none else some (total + run' * 2))
    unfolding length_loop
    length_end e = rw (e, length_loop)

    length_quote :
        (c : ℕ) (rest : Wide)
        → drop run' (unit ∷ units) ≡ c ∷ rest
        → (c == quote) ≡ true
        → length_loop size_max (suc fuel) (unit ∷ units) total ≡ (
            if ltb ((size_max - 2) / 2) run' || ltb (size_max - total) (run' * 2 + 2)
            then none
            else length_loop size_max fuel rest (total + (run' * 2 + 2)))
    unfolding length_loop
    length_quote c rest e q = rw (e, length_loop) (rw q refl)

    length_plain :
        (c : ℕ) (rest : Wide)
        → drop run' (unit ∷ units) ≡ c ∷ rest
        → (c == quote) ≡ false
        → length_loop size_max (suc fuel) (unit ∷ units) total ≡ (
            if (run' == size_max) || ltb (size_max - total) (run' + 1)
            then none
            else length_loop size_max fuel rest (total + (run' + 1)))
    unfolding length_loop
    length_plain c rest e q = rw (e, length_loop) (rw q refl)

  -- The three outcomes of a round, against the bound on what is written in the end.
  end_bounded :
      (total run : ℕ)
      → total ≤ size_max
      → (if ltb ((size_max - total) / 2) run then none else some (total + run * 2))
        ≡ bounded (total + run * 2)
  end_bounded total run h = ground arith

  quote_bounded :
      (total run more : ℕ) (later : Option ℕ)
      → total ≤ size_max
      → 2 ≤ size_max
      → (total + (run * 2 + 2) ≤ size_max → later ≡ bounded (total + (run * 2 + 2) + more))
      → (if ltb ((size_max - 2) / 2) run || ltb (size_max - total) (run * 2 + 2)
          then none
          else later)
        ≡ bounded (total + (run * 2 + 2) + more)
  quote_bounded total run more later h k l = ground arith

  plain_bounded :
      (total run more : ℕ) (later : Option ℕ)
      → total ≤ size_max
      → (total + (run + 1) ≤ size_max → later ≡ bounded (total + (run + 1) + more))
      → (if (run == size_max) || ltb (size_max - total) (run + 1) then none else later)
        ≡ bounded (total + (run + 1) + more)
  plain_bounded total run more later h l = ground arith

  length_loop_lem :
      (fuel : ℕ) (value : Wide) (total : ℕ)
      → length value ≤ fuel
      → 2 ≤ total
      → total ≤ size_max
      → length_loop size_max fuel value total ≡ bounded (total + length (append_loop fuel value))
  length_loop_lem fuel [] total h k l = unfold length_loop append_loop in ground arith
  length_loop_lem zero (unit ∷ units) total h k l = absurd (omega arith)
  length_loop_lem (suc fuel) (unit ∷ units) total h k l =
      let run = leading_backslashes (unit ∷ units) in
      elim (run_lem (unit ∷ units)) [
        | ends e ↦
            length_end fuel unit units total e
            ∙ end_bounded total run l
            ∙ ap bounded (omega (arith, length_append_end fuel unit units e))
        | stops c rest e ne lt ↦
            let more = length (append_loop fuel rest) in
            elim (Bool-cases (c == quote)) [
              | inl q ↦
                  length_quote fuel unit units total c rest e q
                  ∙ quote_bounded total run more _ l (omega arith) (λ fits.
                    length_loop_lem fuel rest (total + (run * 2 + 2)) (omega arith) (omega arith)
                      fits)
                  ∙ ap bounded (omega (arith, length_append_quote fuel unit units c rest e q))
              | inr q ↦
                  length_plain fuel unit units total c rest e q
                  ∙ plain_bounded total run more _ l (λ fits.
                    length_loop_lem fuel rest (total + (run + 1)) (omega arith) (omega arith) fits)
                  ∙ ap bounded (omega (arith, length_append_plain fuel unit units c rest e q))
            ]
      ]

-- The length that is measured before the allocation is the length of what is written, and the
-- measure fails exactly when that length passes SIZE_MAX.
pub quoted-length :
    (size_max : ℕ) (value : Wide)
    → 2 ≤ size_max
    → quoted_windows_argument_length size_max value ≡ (
        if leb (length (append_quoted_windows_argument value)) size_max
        then some (length (append_quoted_windows_argument value))
        else none)
unfolding quoted_windows_argument_length append_quoted_windows_argument
quoted-length size_max value h =
    length_loop_lem size_max (length value) value 2 (omega arith) (omega arith) h
    ∙ ap (bounded size_max)
        (omega (arith, length-append (append_loop (length value) value) (quote ∷ [])))
