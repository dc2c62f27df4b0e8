-- ===== src/Windows/Arguments.antt =====
-- `quoted_windows_argument_length`, `append_quoted_windows_argument` and the command line of
-- `build_wide_arguments` in native/yaca_native.c. A wide string is the list of its units before
-- the terminating NUL; `SIZE_MAX` is a parameter, since the program is built for 32 and 64 bits.
pub mod Quoting
pub mod Reading
pub mod CommandLine
mod Examples
use yaca.Base.{
  ℕ, zero, suc, ◌+◌, ◌-◌, ◌*◌, ◌/◌, ◌^◌, Bool, true, false, ◌||◌, Option, none, some, List, [], ◌∷◌,
  ◌++◌, ◌≡◌, refl, Bytes, length, drop, replicate, ltb, leb, ◌==◌, if◌then◌else◌, codes,
}

abbrev pub Wide : Type 0
Wide = List ℕ

abbrev pub backslash : ℕ
backslash = b'\\'

abbrev pub quote : ℕ
quote = b'"'

abbrev pub space : ℕ
space = b' '

-- `while (cursor[backslashes] == L'\\') backslashes++`
pub leading_backslashes : Wide → ℕ
leading_backslashes [] = 0
leading_backslashes (unit ∷ units) = if unit == backslash then leading_backslashes units + 1 else 0

-- The loop of `append_quoted_windows_argument`: the units that it writes. Each round takes at least
-- one unit, so the length of the argument is fuel enough.
pub append_loop : ℕ → Wide → Wide
append_loop fuel [] = []
append_loop zero (unit ∷ units) = []
append_loop (suc fuel) (unit ∷ units) =
    let backslashes = leading_backslashes (unit ∷ units) in
    elim (drop backslashes (unit ∷ units)) [
      | [] ↦ replicate (backslashes * 2) backslash
      | c ∷ cursor ↦
          replicate (if c == quote then backslashes * 2 else backslashes) backslash
          ++ ((if c == quote then backslash ∷ [] else []) ++ c ∷ append_loop fuel cursor)
    ]

module _ (size_max : ℕ) where
  -- The loop of `quoted_windows_argument_length`; `none` is the result 0.
  pub length_loop : ℕ → Wide → ℕ → Option ℕ
  length_loop fuel [] total = some total
  length_loop zero (unit ∷ units) total = none
  length_loop (suc fuel) (unit ∷ units) total =
      let backslashes = leading_backslashes (unit ∷ units) in
      elim (drop backslashes (unit ∷ units)) [
        | [] ↦
            if ltb ((size_max - total) / 2) backslashes
            then none
            else some (total + backslashes * 2)
        | c ∷ cursor ↦
            let quoted = length_loop fuel cursor (total + (backslashes * 2 + 2)) in
            let plain = length_loop fuel cursor (total + (backslashes + 1)) in
            if c == quote
            then (if ltb ((size_max - 2) / 2) backslashes
                  || ltb (size_max - total) (backslashes * 2 + 2)
                then none
                else quoted)
            else if (backslashes == size_max) || ltb (size_max - total) (backslashes + 1)
            then none
            else plain
      ]

unfoldable pub append_quoted_windows_argument : Wide → Wide
unfolding append_loop leading_backslashes
append_quoted_windows_argument value = quote ∷ (append_loop (length value) value ++ quote ∷ [])

unfoldable pub quoted_windows_argument_length : ℕ → Wide → Option ℕ
unfolding length_loop leading_backslashes
quoted_windows_argument_length size_max value = length_loop size_max (length value) value 2

-- The first loop of `build_wide_arguments` over the converted items, with the length so far.
-- `separator_length` is 0 for the first item alone.
pub command_length : ℕ → ℕ → ℕ → List Wide → Option ℕ
command_length size_max separator_length total [] = some total
command_length size_max separator_length total (item ∷ items) =
    elim (quoted_windows_argument_length size_max item) [
      | none ↦ none
      | some item_length ↦
          let longer = command_length size_max 1 (total + (item_length + separator_length)) items in
          if ltb (size_max - separator_length) item_length
            || ltb (size_max - total) (item_length + separator_length)
          then none
          else longer
    ]

-- The second loop: what it writes for the items behind the first.
pub write_more : List Wide → Wide
write_more [] = []
write_more (item ∷ items) = space ∷ (append_quoted_windows_argument item ++ write_more items)

pub write_items : List Wide → Wide
unfolding write_more
write_items [] = []
write_items (item ∷ items) = append_quoted_windows_argument item ++ write_more items

-- `command_line` of the items, the executable first; `allocated` says whether `calloc` gives the
-- buffer, and `none` is the result 0.
unfoldable pub build_command_line : ℕ → Bool → List Wide → Option Wide
unfolding command_length write_items
build_command_line size_max allocated items = elim (command_length size_max 0 0 items) [
  | none ↦ none
  | some total ↦
      if leb 32767 total then none else if allocated then some (write_items items) else none
]
