-- ===== src/Process/Request.antt =====
-- The captured request of `l_process_start` and what is built of it on POSIX systems: its string
-- fields, its mode, the input of a component, its arguments and its environment.
pub mod Environment
pub mod Arguments
mod Examples
use yaca.Base.{
  ℕ, zero, suc, Bool, true, false, ◌&&◌, ◌||◌, not, Option, none, some, List, [], ◌∷◌, ◌==◌, Bytes,
  length, codes, if◌then◌else◌,
}
use yaca.Base.Int.{ℤ}

-- The values of Lua that the builders tell apart, and the entries of a table in the order of
-- `lua_next`. The snapshot is a plain table, so no access runs a metamethod.
mutual
  pub data Value : Type 0 where
    nil other : Value
    integer : ℤ → Value
    string : Bytes → Value
    table : Entries → Value

  pub data Entries : Type 0 where
    no_entry : Entries
    entry : Value → Value → Entries → Entries

abbrev pub size_max : ℕ
size_max = 0xffffffffffffffff

abbrev pub same_bytes : Bytes → Bytes → Bool
same_bytes [] [] = true
same_bytes [] (y ∷ ys) = false
same_bytes (x ∷ xs) [] = false
same_bytes (x ∷ xs) (y ∷ ys) = (x == y) && same_bytes xs ys

-- `memchr` finds the byte.
abbrev pub contains : ℕ → Bytes → Bool
contains byte [] = false
contains byte (x ∷ xs) = (x == byte) || contains byte xs

abbrev pub is_string : Value → Bytes → Bool
is_string (string bytes) name = same_bytes bytes name
is_string value name = false

-- `lua_getfield` on a plain table.
unfoldable pub field : Bytes → Entries → Value
field name no_entry = nil
field name (entry key value rest) =
    let later = field name rest in if is_string key name then value else later

-- A nonempty string without NUL, or an absence where it is allowed; `none` is the result 0.
pub admit_string : Bool → Value → Option (Option Bytes)
admit_string optional nil = if optional then some none else none
admit_string optional (string bytes) =
    if (length bytes == 0) || contains 0 bytes then none else some (some bytes)
admit_string optional value = none

unfoldable pub request_string_field : Bytes → Bool → Entries → Option (Option Bytes)
unfolding field admit_string
request_string_field name optional request = admit_string optional (field name request)

-- `*argv_mode`, if the mode is admitted.
unfoldable pub admit_mode : Value → Option Bool
admit_mode nil = some false
admit_mode (string bytes) = if same_bytes bytes (codes "argv") then some true else none
admit_mode value = none

unfoldable pub request_process_mode : Entries → Option Bool
unfolding field admit_mode
request_process_mode request = admit_mode (field (codes "mode") request)

-- A field that has to be one text.
abbrev pub names : Option (Option Bytes) → Bytes → Bool
names (some (some bytes)) text = same_bytes bytes text
names admitted text = false

abbrev pub payload : Value → Option Bytes
payload (string bytes) = some bytes
payload value = none

pub admit_stdin : Value → Option Bytes
unfolding request_string_field
admit_stdin (table descriptor) =
    if names (request_string_field (codes "kind") false descriptor) (codes "bytes")
      && names (request_string_field (codes "carrier") false descriptor) (codes "anonymous-pipe")
    then payload (field (codes "bytes") descriptor)
    else none
admit_stdin value = none

unfoldable pub request_component_stdin : Entries → Option Bytes
unfolding admit_stdin
request_component_stdin request = admit_stdin (field (codes "stdin") request)
