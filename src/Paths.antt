-- ===== src/Paths.antt =====
-- Joining and splitting POSIX paths, and the vector of a walk, in native/yaca_native.c. A path is a
-- string of C: its bytes without the final NUL, none of which is 0.
pub mod Join
pub mod Vector
mod Examples
use yaca.Base.{
  ℕ, zero, suc, ◌+◌, ◌-◌, ◌*◌, ◌%◌, ◌^◌, Bool, true, false, ◌&&◌, ◌||◌, not, Option, none, some,
  List, [], ◌∷◌, ◌++◌, ◌==◌, ltb, leb, Bytes, length, get_or, take, drop, if◌then◌else◌,
}

abbrev pub slash : ℕ
slash = 47

abbrev pub dot : ℕ
dot = 46

abbrev pub size_max : ℕ
size_max = 0xffffffffffffffff

abbrev pub is_root : Bytes → Bool
is_root path = (length path == 1) && (get_or path 0 0 == slash)

-- `allocated` tells whether `malloc` gives the memory.
unfoldable pub posix_join_path : Bool → Bytes → Bytes → Option Bytes
posix_join_path allocated parent name =
    if ltb (size_max - length name - (if is_root parent then 1 else 2)) (length parent)
    then none
    else if allocated
    then some (if is_root parent then parent ++ name else parent ++ (slash ∷ name))
    else none

abbrev later_index : Bool → Option ℕ → Option ℕ
later_index here (some index) = some (suc index)
later_index here none = if here then some 0 else none

-- `strrchr`, as an index.
pub last_index : ℕ → Bytes → Option ℕ
last_index byte [] = none
last_index byte (x ∷ xs) = later_index (x == byte) (last_index byte xs)

pub data SplitResult : Type 0 where
  split : Bytes → Bytes → SplitResult
  refused_entry refused_basename no_memory : SplitResult

-- "." and "..".
abbrev pub is_dots : Bytes → Bool
is_dots (x ∷ []) = x == dot
is_dots (x ∷ y ∷ []) = (x == dot) && (y == dot)
is_dots name = false

-- `separator == path ? 1U : (size_t)(separator - path)`
abbrev pub parent_length : ℕ → ℕ
parent_length zero = 1
parent_length (suc separator) = suc separator

pub split_at : Bool → Bytes → Option ℕ → SplitResult
split_at allocated path none = refused_basename
split_at allocated path (some separator) =
    let name = drop (suc separator) path in
    if (length name == 0) || is_dots name
    then refused_basename
    else if allocated
    then split (take (parent_length separator) path) name
    else no_memory

unfoldable pub posix_parent_and_name : Bool → Bytes → SplitResult
unfolding split_at last_index
posix_parent_and_name allocated path =
    if not (get_or path 0 0 == slash)
      || ((length path == 1) || (get_or path (length path - 1) 0 == slash))
    then refused_entry
    else split_at allocated path (last_index slash path)

unfoldable pub relative_join : Bool → Bytes → Bytes → Option Bytes
relative_join allocated parent name =
    if length parent == 0
    then (if allocated then some name else none)
    else if ltb (size_max - length name - 2) (length parent)
    then none
    else if allocated
    then some (parent ++ (slash ∷ name))
    else none

-- `yaca_path_vector`
pub record PathVector : Type 0 where
  pub items : List Bytes
  pub capacity : ℕ
  pub maximum : ℕ
  pub truncated : Bool

-- The capacity behind the growth, with the wrap-around of `size_t`.
abbrev pub grown_capacity : PathVector → ℕ
grown_capacity v =
    let wanted = if v.capacity == 0 then 32 else v.capacity * 2 % 2 ^ 64 in
    if ltb v.maximum wanted then v.maximum else wanted

-- `realloc` and `strdup` tell whether the memory is given.
pub record Given : Type 0 where
  pub realloc : Bool
  pub strdup : Bool

abbrev pub put_path : Bool → Bytes → PathVector → PathVector × Bool
put_path strdup path v =
    if strdup then (record v { items = v.items ++ (path ∷ []) }, true) else (v, false)

-- The vector and the result.
unfoldable pub append_path : Given → Bytes → PathVector → PathVector × Bool
append_path given path v =
    if leb v.maximum (length v.items)
    then (record v { truncated = true }, true)
    else if length v.items == v.capacity
    then (if given.realloc
        then put_path given.strdup path (record v { capacity = grown_capacity v })
        else (v, false))
    else put_path given.strdup path v
