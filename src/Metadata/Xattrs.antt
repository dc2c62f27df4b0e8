-- ===== src/Metadata/Xattrs.antt =====
-- The capture of a file's metadata: `load_descriptor_xattrs` and `capture_posix_metadata`; and
-- `synchronize_descriptor_xattrs`. The system's calls are an interface over any world.
pub mod Merge
mod Examples
use yaca.Base.{
  ℕ, suc, ◌+◌, ◌-◌, Bool, true, false, ◌&&◌, ◌||◌, not, Option, none, some, List, [], ◌∷◌, ◌++◌,
  ◌==◌, ltb, leb, Bytes, length, if◌then◌else◌,
}
use yaca.Base.Result.{Result, ok, err}
use yaca.Metadata.{Attribute, State}

-- `flistxattr`, `fgetxattr`, `fsetxattr`, `fremovexattr` and `ioctl`, with `errno` where they fail.
-- A call with a buffer gives the bytes that it reports, which may be more or fewer than before.
pub record Calls (W : Type 0) : Type 0 where
  pub list_size : ℕ → W → Result ℕ ℕ × W
  pub list_names : ℕ → ℕ → W → Result ℕ Bytes × W
  pub value_size : ℕ → Bytes → W → Result ℕ ℕ × W
  pub get_value : ℕ → Bytes → ℕ → W → Result ℕ Bytes × W
  pub set_value : ℕ → Bytes → Bytes → W → Option ℕ × W
  pub remove : ℕ → Bytes → W → Option ℕ × W
  pub get_flags : ℕ → W → Result ℕ ℕ × W

-- Whether `malloc`, `calloc` and `strdup` give the memory, by the index of the item.
pub record Memory : Type 0 where
  pub names : Bool
  pub items : Bool
  pub copy : ℕ → Bool
  pub value : ℕ → Bool

-- The three values of the result, with what was captured.
pub data Captured (A : Type 0) : Type 0 where
  proven : A → Captured A
  unsupported error : Captured A

abbrev pub max_count : ℕ
max_count = 1024

abbrev pub max_bytes : ℕ
max_bytes = 0x100000

-- EACCES and EPERM; with ENOTSUP too; with ENOTTY too.
abbrev pub is_denied : ℕ → Bool
is_denied errno = (errno == 13) || (errno == 1)

abbrev pub is_unsupported : ℕ → Bool
is_unsupported errno = (errno == 95) || is_denied errno

abbrev pub has_no_flags : ℕ → Bool
has_no_flags errno = (errno == 25) || is_unsupported errno

-- The loop over the list of names, of which `current` is the one that is being read; `total` is
-- what the names before it take with their NUL, and is less than `max_bytes` inside the list.
unfoldable pub parse_names : Bytes → Bytes → List Bytes → ℕ → Captured (List Bytes × ℕ)
parse_names [] [] names total = proven (names, total)
parse_names [] (c ∷ current) names total = error
parse_names (b ∷ rest) current names total = elim (b == 0) [
  | true ↦ elim (length current == 0) [
    | true ↦ error
    | false ↦ elim (ltb (max_bytes - 1 - total) (length current) || leb max_count (length names)) [
      | true ↦ unsupported
      | false ↦ parse_names rest [] (names ++ (current ∷ [])) (total + (length current + 1))
    ]
  ]
  | false ↦ parse_names rest (current ++ (b ∷ [])) names total
]

-- `strcmp` of two names: the sign of the result.
pub data Order : Type 0 where
  before same after : Order

abbrev pub by_byte : ℕ → ℕ → Order → Order
by_byte x y rest = if ltb x y then before else if x == y then rest else after

unfoldable pub compare_names : Bytes → Bytes → Order
compare_names [] [] = same
compare_names [] (y ∷ ys) = before
compare_names (x ∷ xs) [] = after
compare_names (x ∷ xs) (y ∷ ys) = by_byte x y (compare_names xs ys)

-- `qsort` with `compare_xattrs`.
abbrev put_before : Order → Bytes → Bytes → List Bytes → List Bytes → List Bytes
put_before after name first rest placed = first ∷ placed
put_before order name first rest placed = name ∷ first ∷ rest

unfoldable pub insert_name : Bytes → List Bytes → List Bytes
unfolding compare_names
insert_name name [] = name ∷ []
insert_name name (first ∷ rest) =
    put_before (compare_names name first) name first rest (insert_name name rest)

unfoldable pub sort_names : List Bytes → List Bytes
unfolding insert_name
sort_names [] = []
sort_names (name ∷ names) = insert_name name (sort_names names)

unfoldable pub all_copied : (ℕ → Bool) → List Bytes → Bool
all_copied copy [] = true
all_copied copy (name ∷ names) = copy 0 && all_copied (λ i. copy (suc i)) names

abbrev prepend : Attribute → Captured (List Attribute) → Captured (List Attribute)
prepend attribute (proven attributes) = proven (attribute ∷ attributes)
prepend attribute unsupported = unsupported
prepend attribute error = error

abbrev failed_value : {A : Type 0} → ℕ → Captured A
failed_value errno = if is_denied errno then unsupported else error

module _ {W : Type 0} (calls : Calls W) where
  -- The value of one name, read again with its size.
  unfoldable pub confirm_value : ℕ → Bytes → ℕ → Result ℕ Bytes × W → Captured Attribute × W
  confirm_value descriptor name size (err errno, world) = (failed_value errno, world)
  confirm_value descriptor name size (ok value, world) = (
    if length value == size then proven (record { name = name; value = value }) else error,
    world,
  )

  unfoldable pub load_value : ℕ → Bool → Bytes → ℕ → Result ℕ ℕ × W → Captured Attribute × W
  unfolding confirm_value
  load_value descriptor memory name total (err errno, world) = (failed_value errno, world)
  load_value descriptor memory name total (ok size, world) =
      if ltb (max_bytes - total) size
      then (unsupported, world)
      else if not (size == 0) && not memory
      then (error, world)
      else confirm_value descriptor name size (calls.get_value descriptor name size world)

  -- The rest is read with the length of the value counted in.
  abbrev pub with_value :
      (ℕ → W → Captured (List Attribute) × W)
      → Captured Attribute × W
      → Captured (List Attribute) × W
  with_value rest (unsupported, world) = (unsupported, world)
  with_value rest (error, world) = (error, world)
  with_value rest (proven attribute, world) =
      let more = rest (length attribute.value) world in (prepend attribute more.0, more.1)

  -- The loop over the sorted names.
  unfoldable pub load_values : ℕ → (ℕ → Bool) → List Bytes → ℕ → W → Captured (List Attribute) × W
  unfolding load_value
  load_values descriptor memory [] total world = (proven [], world)
  load_values descriptor memory (name ∷ names) total world =
      with_value
        (λ size world. load_values descriptor (λ i. memory (suc i)) names (total + size) world)
        (load_value descriptor (memory 0) name total (calls.value_size descriptor name world))

  unfoldable pub load_names :
      ℕ → Memory → Captured (List Bytes × ℕ) → W → Captured (List Attribute) × W
  unfolding load_values sort_names all_copied
  load_names descriptor memory unsupported world = (unsupported, world)
  load_names descriptor memory error world = (error, world)
  load_names descriptor memory (proven (names, total)) world =
      if memory.items && all_copied memory.copy names
      then load_values descriptor memory.value (sort_names names) total world
      else (error, world)

  unfoldable pub confirm_names : ℕ → Memory → ℕ → Result ℕ Bytes × W → Captured (List Attribute) × W
  unfolding load_names parse_names
  confirm_names descriptor memory size (err errno, world) = (error, world)
  confirm_names descriptor memory size (ok names, world) =
      if length names == size
      then load_names descriptor memory (parse_names names [] [] 0) world
      else (error, world)

  unfoldable pub list_names : ℕ → Memory → Result ℕ ℕ × W → Captured (List Attribute) × W
  unfolding confirm_names
  list_names descriptor memory (err errno, world) =
      (if is_unsupported errno then unsupported else error, world)
  list_names descriptor memory (ok size, world) =
      if ltb max_bytes size
      then (unsupported, world)
      else if size == 0
      then (proven [], world)
      else if memory.names
      then confirm_names descriptor memory size (calls.list_names descriptor size world)
      else (error, world)

  unfoldable pub load_descriptor_xattrs : ℕ → Memory → W → Captured (List Attribute) × W
  unfolding list_names
  load_descriptor_xattrs descriptor memory world =
      list_names descriptor memory (calls.list_size descriptor world)
