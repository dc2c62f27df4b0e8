-- ===== src/Process/Request/Environment.antt =====
-- `build_posix_environment`. Whether `calloc`, `realloc` and `malloc` give their memory is an
-- argument, by the number of entries so far.
pub mod Proof
pub mod Total
use yaca.Base.{
  ℕ, ◌+◌, ◌-◌, ◌*◌, ◌/◌, Bool, true, false, ◌&&◌, ◌||◌, not, Option, none, some, List, [], ◌∷◌,
  ◌++◌, ◌==◌, ltb, Bytes, length, if◌then◌else◌, codes,
}
use yaca.Process.Request.{Value, Entries, entry, no_entry, string, table, field, contains, size_max}

pub record Memory : Type 0 where
  pub calloc : Bool
  pub realloc : ℕ → Bool
  pub malloc : ℕ → Bool

-- The vector has room for `capacity` entries and a final NULL. `highest` is the model's own: the
-- last index that was written.
pub record Environment : Type 0 where
  pub items : List Bytes
  pub capacity : ℕ
  pub highest : ℕ

abbrev pub equals_sign : ℕ
equals_sign = 61

-- The tests of one name and value; a value is shorter than SIZE_MAX - 2 bytes.
abbrev pub is_refused : Bytes → Bytes → Bool
is_refused name value =
    (length name == 0)
    || (contains 0 name
        || (contains equals_sign name
            || (contains 0 value || ltb (size_max - length value - 2) (length name))))

-- The capacity for one entry more; `none` is a refused growth.
pub grow : Memory → Environment → Option ℕ
grow memory e =
    if length e.items == e.capacity
    then (if ltb (size_max / 2 / 8) e.capacity
        then none
        else if memory.realloc (length e.items)
        then some (e.capacity * 2)
        else none)
    else some e.capacity

-- The entry and the NULL behind it are written.
abbrev pub put : Environment → Bytes → Bytes → ℕ → Environment
put e name value capacity = record {
  items = e.items ++ ((name ++ (equals_sign ∷ value)) ∷ []);
  capacity = capacity;
  highest = length e.items + 1;
}

abbrev pub put_allocated : Memory → Environment → Bytes → Bytes → Option ℕ → Option Environment
put_allocated memory e name value none = none
put_allocated memory e name value (some capacity) =
    if memory.malloc (length e.items) then some (put e name value capacity) else none

-- One round; `none` is the release of everything and the result 0.
pub add_entry : Memory → Environment → Value → Value → Option Environment
unfolding grow
add_entry memory e (string name) (string value) =
    if is_refused name value then none else put_allocated memory e name value (grow memory e)
add_entry memory e key value = none

abbrev pub and_then : (Environment → Option Environment) → Option Environment → Option Environment
and_then rest none = none
and_then rest (some e) = rest e

pub add_entries : Memory → Entries → Environment → Option Environment
unfolding add_entry
add_entries memory no_entry e = some e
add_entries memory (entry key value rest) e =
    and_then (add_entries memory rest) (add_entry memory e key value)

abbrev pub first_capacity : ℕ
first_capacity = 8

abbrev pub empty_environment : Environment
empty_environment = record { items = []; capacity = first_capacity; highest = 0 }

pub of_table : Memory → Value → Option Environment
of_table memory (table entries) =
    if memory.calloc then add_entries memory entries empty_environment else none
of_table memory value = none

unfoldable pub build_posix_environment : Memory → Entries → Option Environment
unfolding add_entries of_table field
build_posix_environment memory request = of_table memory (field (codes "environment") request)
