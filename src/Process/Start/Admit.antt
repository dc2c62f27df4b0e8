-- ===== src/Process/Start/Admit.antt =====
-- `capture_process_request`, and what `l_process_start` tests of the captured request before it
-- acquires anything.
use yaca.Base.{ℕ, Bool, true, false, Option, none, some, List, [], ◌∷◌, ◌==◌, Bytes, codes, get_or}
use yaca.Base.Int.{pos}
use yaca.Base.Result.{Result, ok, err, ◌>>=◌, or_raise, ensure}
use yaca.Process.State.{Code}
use yaca.Process.Request.{
  Value, Entries, nil, integer, string, table, entry, no_entry, field, admit_mode,
  request_string_field, request_component_stdin,
}

-- The codes of the failures. Those that `errno_code` gives are `system`.
pub data Refusal : Type 0 where
  invalid_process_mode invalid_component invalid_executable invalid_command : Refusal
  invalid_clock invalid_shell invalid_environment invalid_arguments : Refusal
  system : Code → Refusal

-- `lua_setfield` on a table without the key: a nil is not kept.
unfoldable pub keep : Bytes → Value → Entries → Entries
keep name nil rest = rest
keep name value rest = entry (string name) value rest

-- `capture_process_field` for each name in turn; `get` is what the caller's table gives, which may
-- run the caller's own code.
unfoldable pub capture_fields : (Bytes → Value) → List Bytes → Entries
unfolding keep
capture_fields get [] = no_entry
capture_fields get (name ∷ names) = keep name (get name) (capture_fields get names)

abbrev pub stdin_fields : List Bytes
stdin_fields = codes "kind" ∷ codes "carrier" ∷ codes "bytes" ∷ []

abbrev pub shell_fields : List Bytes
shell_fields = codes "kind" ∷ codes "executable" ∷ []

-- A table is replaced by a plain one with the known fields, another value stays.
unfoldable pub capture_process_descriptor : List Bytes → Value → Value
unfolding capture_fields field
capture_process_descriptor fields (table source) =
    table (capture_fields (λ name. field name source) fields)
capture_process_descriptor fields value = value

abbrev captured_mode : (Bytes → Value) → Bool → Entries
unfolding capture_process_descriptor keep
captured_mode get true = keep (codes "executable") (get (codes "executable")) (
    keep (codes "arguments") (get (codes "arguments")) (
      keep (codes "stdin") (capture_process_descriptor stdin_fields (get (codes "stdin")))
        (keep (codes "environment") (get (codes "environment")) no_entry)))
captured_mode get false = keep (codes "command") (get (codes "command")) (
    keep (codes "shell") (capture_process_descriptor shell_fields (get (codes "shell")))
      (keep (codes "environment") (get (codes "environment")) no_entry))

-- The mode and the private request; `none` is the result 0.
unfoldable pub capture_process_request : (Bytes → Value) → Option (Bool × Entries)
unfolding captured_mode keep admit_mode
capture_process_request get = elim (admit_mode (get (codes "mode"))) [
  | none ↦ none
  | some argv_mode ↦ some (
    argv_mode,
    keep (codes "mode") (get (codes "mode")) (
        keep (codes "cwd") (get (codes "cwd"))
          (keep (codes "started_at") (get (codes "started_at")) (captured_mode get argv_mode))),
  )
]

-- What is to be run: the fixed shell of the descriptor, or a component with its input.
pub data Selection : Type 0 where
  shell : Bytes → Bytes → Bytes → Selection
  component : Bytes → Bytes → Selection

pub record Admitted : Type 0 where
  pub request : Entries
  pub cwd : Option Bytes
  pub selection : Selection
  pub started_at : ℕ

-- A required string: the reader gives the value that it admits.
abbrev required : Refusal → Option (Option Bytes) → Result Refusal Bytes
required refusal (some (some bytes)) = ok bytes
required refusal admitted = err refusal

-- `lua_isinteger` and the sign.
abbrev start_time : Value → Result Refusal ℕ
start_time (integer (pos n)) = ok n
start_time value = err invalid_clock

abbrev shell_of : Bytes → Value → Result Refusal Selection
unfolding request_string_field
shell_of command (table descriptor) = do
  kind ← required invalid_shell (request_string_field (codes "kind") false descriptor)
  executable ← required invalid_shell (request_string_field (codes "executable") false descriptor)
  ok (shell kind executable command)
shell_of command value = err invalid_shell

abbrev pub slash : ℕ
slash = 47

abbrev is_table : Value → Bool
is_table (table entries) = true
is_table value = false

abbrev component_of : Entries → Result Refusal Selection
unfolding request_string_field request_component_stdin
component_of request = do
  executable ← required invalid_component (request_string_field (codes "executable") false request)
  input ← or_raise invalid_component (request_component_stdin request)
  ensure (get_or executable 0 0 == slash) invalid_executable (component executable input)

-- The shell is read behind the clock, the component before it.
abbrev selection_of : Bool → Entries → Result Refusal (Selection × ℕ)
unfolding component_of shell_of field request_string_field
selection_of true request = do
  selection ← component_of request
  started_at ← start_time (field (codes "started_at") request)
  ok (selection, started_at)
selection_of false request = do
  command ← required invalid_command (request_string_field (codes "command") false request)
  started_at ← start_time (field (codes "started_at") request)
  selection ← shell_of command (field (codes "shell") request)
  ok (selection, started_at)

unfoldable pub admit_request : (Bytes → Value) → Result Refusal Admitted
unfolding capture_process_request request_string_field selection_of field
admit_request get = do
  captured ← or_raise invalid_process_mode (capture_process_request get)
  cwd ← or_raise invalid_process_mode (request_string_field (codes "cwd") true captured.1)
  selected ← selection_of captured.0 captured.1
  ensure (is_table (field (codes "environment") captured.1)) invalid_environment
      (record { request = captured.1; cwd = cwd; selection = selected.0; started_at = selected.1 })
