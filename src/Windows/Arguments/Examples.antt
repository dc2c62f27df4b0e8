-- ===== src/Windows/Arguments/Examples.antt =====
-- A command line, and the theorems at concrete inputs.
use yaca.Base.{
  ◌-◌, ◌^◌, true, none, some, [], ◌∷◌, ◌≡◌, refl, arith, length, leb, if◌then◌else◌, codes,
}
use yaca.Windows.Arguments.{
  build_command_line, quoted_windows_argument_length, append_quoted_windows_argument, write_items,
  command_length,
}
use yaca.Windows.Arguments.Quoting.{quoted-length}
use yaca.Windows.Arguments.Reading.{read_arguments, read-write_items}
use yaca.Windows.Arguments.CommandLine.{build_command_line_lem, command_length-write_items}

three_items :
    build_command_line (2 ^ 32 - 1) true (codes "a b" ∷ codes "c\\" ∷ codes "\\\"" ∷ [])
    ≡ some (codes "\"a b\" \"c\\\\\" \"\\\\\\\"\"")
unfolding build_command_line quoted_windows_argument_length append_quoted_windows_argument
three_items = refl

quoted-length_example : quoted_windows_argument_length (2 ^ 32 - 1) (codes "a\\") ≡ (
    if leb (length (append_quoted_windows_argument (codes "a\\"))) (2 ^ 32 - 1)
    then some (length (append_quoted_windows_argument (codes "a\\")))
    else none)
quoted-length_example = quoted-length (2 ^ 32 - 1) (codes "a\\") (omega arith)

read-write_items_example :
    read_arguments (write_items (codes "a b" ∷ codes "\\\"" ∷ [])) ≡ codes "a b" ∷ codes "\\\"" ∷ []
read-write_items_example = read-write_items (codes "a b" ∷ codes "\\\"" ∷ [])

command_length-write_items_example :
    command_length (2 ^ 32 - 1) 0 0 (codes "a" ∷ codes "b" ∷ []) ≡ (
      if leb (length (write_items (codes "a" ∷ codes "b" ∷ []))) (2 ^ 32 - 1)
      then some (length (write_items (codes "a" ∷ codes "b" ∷ [])))
      else none)
command_length-write_items_example =
    command_length-write_items (2 ^ 32 - 1) (omega arith) (codes "a" ∷ codes "b" ∷ [])

build_command_line_lem_example : build_command_line (2 ^ 32 - 1) true (codes "a" ∷ []) ≡ (
    if leb 32767 (length (write_items (codes "a" ∷ [])))
    then none
    else if true
    then some (write_items (codes "a" ∷ []))
    else none)
build_command_line_lem_example =
    build_command_line_lem (2 ^ 32 - 1) true (codes "a" ∷ []) (omega arith)
