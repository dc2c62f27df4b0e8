-- ===== src/Process/Request/Arguments.antt =====
-- `request_component_argument_count` and `build_posix_arguments`. What `lua_rawlen` returns is an
-- argument: for a table with holes Lua may return any border.
pub mod Dense
use yaca.Base.{
  ℕ, suc, zero, ◌+◌, ◌-◌, ◌/◌, Bool, true, false, ◌&&◌, ◌||◌, not, Option, none, some, List, [],
  ◌∷◌, ◌++◌, ◌==◌, ltb, leb, Bytes, if◌then◌else◌, codes,
}
use yaca.Base.Int.{ℤ, pos, negsuc}
use yaca.Process.Request.{
  Value, Entries, entry, no_entry, string, table, integer, field, contains, size_max,
}

-- The tests of one key and value.
abbrev pub is_argument : ℕ → Value → Value → Bool
is_argument raw_count (integer (pos key)) (string value) =
    leb 1 key && (leb key raw_count && not (contains 0 value))
is_argument raw_count key value = false

-- The loop of `lua_next`; `none` is the result 0.
pub observe : ℕ → ℕ → Entries → Option ℕ
observe raw_count observed no_entry = some observed
observe raw_count observed (entry key value rest) =
    let later = observe raw_count (observed + 1) rest in
    if is_argument raw_count key value then later else none

abbrev same_count : ℕ → Option ℕ → Option ℕ
same_count raw_count none = none
same_count raw_count (some observed) = if observed == raw_count then some observed else none

abbrev pub count_of : ℕ → Value → Option ℕ
count_of raw_count (table arguments) =
    if ltb (size_max - 2) raw_count
    then none
    else same_count raw_count (observe raw_count 0 arguments)
count_of raw_count value = none

unfoldable pub request_component_argument_count : ℕ → Entries → Option ℕ
unfolding observe field
request_component_argument_count raw_count request =
    count_of raw_count (field (codes "arguments") request)

abbrev pub is_key : ℕ → Value → Bool
is_key index (integer (pos key)) = key == index
is_key index key = false

-- `lua_rawgeti` and `lua_tostring`; `none` is NULL.
pub raw_get : ℕ → Entries → Option Bytes
raw_get index no_entry = none
raw_get index (entry key (string value) rest) =
    let later = raw_get index rest in if is_key index key then some value else later
raw_get index (entry key value rest) =
    let later = raw_get index rest in if is_key index key then none else later

-- The supplied arguments from an index on.
pub supplied : ℕ → ℕ → Entries → List (Option Bytes)
supplied zero index arguments = []
supplied (suc left) index arguments = raw_get index arguments ∷ supplied left (index + 1) arguments

abbrev pub entries_of : Value → Entries
entries_of (table arguments) = arguments
entries_of value = no_entry

abbrev pub vector_of : Bool → Bytes → Entries → Option ℕ → Option (List (Option Bytes))
vector_of allocated executable request none = none
vector_of allocated executable request (some count) =
    if ltb (size_max / 8 - 2) count
    then none
    else if allocated
    then some (
        some executable
        ∷ (supplied count 1 (entries_of (field (codes "arguments") request)) ++ (none ∷ [])))
    else none

-- `allocated` tells whether `calloc` gives the vector.
unfoldable pub build_posix_arguments : Bool → ℕ → Bytes → Entries → Option (List (Option Bytes))
unfolding request_component_argument_count supplied raw_get
build_posix_arguments allocated raw_count executable request =
    vector_of allocated executable request (request_component_argument_count raw_count request)
