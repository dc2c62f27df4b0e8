-- ===== src/Windows/Arguments/CommandLine.antt =====
-- `build_wide_arguments`: when it gives a command line, and which.
use yaca.Base.{
  ℕ, ◌+◌, ◌-◌, ◌≤◌, ◌<◌, Bool, ◌||◌, Option, none, some, List, [], ◌∷◌, ◌≡◌, refl, ap, sym, arith,
  ◌∙◌, length, ltb, leb, le→leb, lt→not_leb, lt-cases, inl, inr, if◌then◌else◌, length-append,
}
use yaca.Windows.Arguments.{
  Wide, append_quoted_windows_argument, quoted_windows_argument_length, command_length, write_more,
  write_items, build_command_line,
}
use yaca.Windows.Arguments.Quoting.{quoted-length}

module _ (size_max : ℕ) (roomy : 32767 ≤ size_max) where
  abbrev bounded : ℕ → Option ℕ
  bounded total = if leb total size_max then some total else none

  abbrev quoted : Wide → ℕ
  quoted item = length (append_quoted_windows_argument item)

  -- What the items add, with a separator before each but the first.
  abbrev added : ℕ → List Wide → ℕ
  added separator [] = 0
  added separator (item ∷ items) = quoted item + separator + added 1 items

  round_bounded :
      (separator total n more : ℕ) (later : Option ℕ)
      → separator ≤ 1
      → n ≤ size_max
      → total ≤ size_max
      → (total + (n + separator) ≤ size_max → later ≡ bounded (total + (n + separator) + more))
      → (if ltb (size_max - separator) n || ltb (size_max - total) (n + separator)
          then none
          else later)
        ≡ bounded (total + (n + separator) + more)
  round_bounded separator total n more later h k l m = ground arith

  command_length_step :
      (separator total : ℕ) (item : Wide) (items : List Wide)
      → quoted item ≤ size_max
      → command_length size_max separator total (item ∷ items) ≡ (
          if ltb (size_max - separator) (quoted item)
            || ltb (size_max - total) (quoted item + separator)
          then none
          else command_length size_max 1 (total + (quoted item + separator)) items)
  unfolding command_length
  command_length_step separator total item items h =
      let e : quoted_windows_argument_length size_max item ≡ some (quoted item) =
        quoted-length size_max item (omega arith) ∙ rw (le→leb (quoted item) size_max h) in
      rw (e, command_length)

  command_length_over :
      (separator total : ℕ) (item : Wide) (items : List Wide)
      → size_max < quoted item
      → command_length size_max separator total (item ∷ items) ≡ none
  unfolding command_length
  command_length_over separator total item items h =
      let e : quoted_windows_argument_length size_max item ≡ none =
        quoted-length size_max item (omega arith) ∙ rw (lt→not_leb (quoted item) size_max h) in
      rw (e, command_length)

  -- The total is the length of the line, and the loop fails exactly when that passes SIZE_MAX.
  command_length_lem :
      (items : List Wide) (separator total : ℕ)
      → separator ≤ 1
      → total ≤ size_max
      → command_length size_max separator total items ≡ bounded (total + added separator items)
  command_length_lem [] separator total h k = unfold command_length in ground arith
  command_length_lem (item ∷ items) separator total h k = elim (lt-cases size_max (quoted item)) [
    | inl over ↦
        command_length_over separator total item items over
        ∙ ap (λ (b : Bool). if b then some (total + added separator (item ∷ items)) else none)
            (sym (lt→not_leb (total + added separator (item ∷ items)) size_max (omega arith)))
    | inr fits ↦
        command_length_step separator total item items fits
        ∙ round_bounded separator total (quoted item) (added 1 items) _ h fits k
            (λ l. command_length_lem items 1 (total + (quoted item + separator)) (omega arith) l)
        ∙ ap bounded (omega arith)
  ]

  length_more : (items : List Wide) → length (write_more items) ≡ added 1 items
  unfolding write_more
  length_more [] = refl
  length_more (item ∷ items) = omega (
    arith,
    length_more items,
    length-append (append_quoted_windows_argument item) (write_more items),
  )

  length_items : (items : List Wide) → length (write_items items) ≡ added 0 items
  unfolding write_items
  length_items [] = refl
  length_items (item ∷ items) = omega (
    arith,
    length_more items,
    length-append (append_quoted_windows_argument item) (write_more items),
  )

  -- The length measured for the buffer is the length of the line written into it, and the measure
  -- fails exactly when that passes SIZE_MAX.
  pub command_length-write_items :
      (items : List Wide)
      → command_length size_max 0 0 items ≡ (
          if leb (length (write_items items)) size_max
          then some (length (write_items items))
          else none)
  command_length-write_items items =
      command_length_lem items 0 0 (omega arith) (omega arith)
      ∙ ap bounded (omega (arith, length_items items))

  build_cases :
      (allocated : Bool) (items : List Wide)
      → build_command_line size_max allocated items ≡ (
          if leb 32767 (length (write_items items))
          then none
          else if allocated
          then some (write_items items)
          else none)
  unfolding build_command_line
  build_cases allocated items =
      let n = length (write_items items) in
      elim (lt-cases size_max n) [
        | inl over ↦
            let e : command_length size_max 0 0 items ≡ none =
              command_length-write_items items ∙ rw (lt→not_leb n size_max over) in
            rw (e, build_command_line, le→leb 32767 n (omega arith))
        | inr fits ↦
            let e : command_length size_max 0 0 items ≡ some n =
              command_length-write_items items ∙ rw (le→leb n size_max fits) in
            rw (e, build_command_line)
      ]

-- A command line is built exactly when, with its terminating NUL, it fits the 32767 units that
-- CreateProcessW admits and its buffer is allocated, and it is then the items' quoted line.
pub build_command_line_lem :
    (size_max : ℕ) (allocated : Bool) (items : List Wide)
    → 32767 ≤ size_max
    → build_command_line size_max allocated items ≡ (
        if leb 32767 (length (write_items items))
        then none
        else if allocated
        then some (write_items items)
        else none)
build_command_line_lem size_max allocated items h = build_cases size_max h allocated items
