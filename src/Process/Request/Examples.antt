-- ===== src/Process/Request/Examples.antt =====
-- A request with two arguments and an environment of one name, and the theorems on it.
use yaca.Base.{
  ℕ, true, Option, none, some, List, [], ◌∷◌, ◌++◌, Bytes, length, ◌≡◌, ◌≤◌, refl, arith, codes,
}
use yaca.Base.Int.{pos}
use yaca.Process.Request.{
  Entries, entry, no_entry, string, table, integer, field, request_process_mode,
  request_component_stdin,
}
use yaca.Process.Request.Environment.{Memory, Environment, build_posix_environment}
use yaca.Process.Request.Environment.Proof.{
  all_admitted, AllPairs, pairs, number, split_items, build_posix_environment-pairs,
}
use yaca.Process.Request.Environment.Total.{build_posix_environment-IsAmple}
use yaca.Process.Request.Arguments.{build_posix_arguments}
use yaca.Process.Request.Arguments.Dense.{Reads, present, occurrences, build_posix_arguments-Reads}

abbrev environment : Entries
environment = entry (string (codes "PATH")) (string (codes "/bin=x")) no_entry

-- The keys come in another order than their values stand in.
abbrev arguments : Entries
arguments =
    entry (integer (pos 2)) (string (codes "b"))
      (entry (integer (pos 1)) (string (codes "a")) no_entry)

abbrev input : Entries
input = entry (string (codes "kind")) (string (codes "bytes")) (
    entry (string (codes "carrier")) (string (codes "anonymous-pipe"))
      (entry (string (codes "bytes")) (string (0 ∷ [])) no_entry))

abbrev request : Entries
request = entry (string (codes "mode")) (string (codes "argv")) (
    entry (string (codes "environment")) (table environment) (
      entry (string (codes "arguments")) (table arguments)
        (entry (string (codes "stdin")) (table input) no_entry)))

abbrev ample : Memory
ample = record { calloc = true; realloc = λ n. true; malloc = λ n. true }

mode : request_process_mode request ≡ some true
unfolding request_process_mode
mode = refl

stdin : request_component_stdin request ≡ some (0 ∷ [])
unfolding request_component_stdin
stdin = refl

abbrev built : Environment
built = record { items = codes "PATH=/bin=x" ∷ []; capacity = 8; highest = 1 }

environment_run : build_posix_environment ample request ≡ some built
unfolding build_posix_environment
environment_run = refl

environment_found : field (codes "environment") request ≡ table environment
unfolding build_posix_environment
environment_found = refl

build_posix_environment-pairs_example :
    AllPairs environment
    × (split_items built.items ≡ pairs environment)
    × (built.highest ≤ built.capacity)
build_posix_environment-pairs_example =
    build_posix_environment-pairs ample request environment built environment_found environment_run

build_posix_environment-IsAmple_example :
    (e : Environment) × (build_posix_environment ample request ≡ some e)
unfolding all_admitted number
build_posix_environment-IsAmple_example =
    build_posix_environment-IsAmple ample request environment
      (record { calloc = refl; realloc = λ n. refl; malloc = λ n. refl }) environment_found refl
      (omega arith)

abbrev vector : List (Option Bytes)
vector = some (codes "/x") ∷ some (codes "a") ∷ some (codes "b") ∷ none ∷ []

arguments_run : build_posix_arguments true 2 (codes "/x") request ≡ some vector
unfolding build_posix_arguments
arguments_run = refl

arguments_found : field (codes "arguments") request ≡ table arguments
unfolding build_posix_environment
arguments_found = refl

arguments_distinct : (index : ℕ) → occurrences index arguments ≤ 1
unfolding occurrences
arguments_distinct index = ground arith

build_posix_arguments-Reads_example :
    (values : List Bytes) × (vector ≡ some (codes "/x") ∷ (present values ++ (none ∷ [])))
    × (length values ≡ 2)
    × Reads 1 arguments values
build_posix_arguments-Reads_example =
    build_posix_arguments-Reads true 2 (codes "/x") request arguments vector arguments_found
      arguments_distinct arguments_run
