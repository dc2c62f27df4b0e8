-- ===== src/Paths/Join.antt =====
-- Splitting and joining agree.
use yaca.Base.{
  ℕ, zero, suc, ◌+◌, ◌-◌, ◌<◌, Bool, true, false, ◌||◌, Option, none, some, [], ◌∷◌, ◌++◌,
  append_assoc, ◌==◌, Bytes, length, length-append, get_or, take, drop, ◌≡◌, refl, arith, ap, ap₂,
  ◌∙◌, sym, subst, Bool-cases, Option-cases, inl, inr, length-take, length-drop,
}
use yaca.Paths.{
  slash, size_max, is_root, posix_join_path, last_index, split, is_dots, split_at, parent_length,
  posix_parent_and_name, relative_join,
}

abbrev pub has_slash : Bytes → Bool
has_slash [] = false
has_slash (x ∷ xs) = (x == slash) || has_slash xs

last_index-none : (xs : Bytes) → last_index slash xs ≡ none → has_slash xs ≡ false
unfolding last_index
last_index-none [] h = refl
last_index-none (x ∷ xs) h = elim (Option-cases (last_index slash xs)) [
  | inl e ↦ ground (arith, last_index-none xs)
  | inr (i, e) ↦ absurd (ground arith)
]

-- The path around its last separator.
record Around (path : Bytes) (i : ℕ) : Type 0 where
  parts : path ≡ take i path ++ (slash ∷ drop (suc i) path)
  last : has_slash (drop (suc i) path) ≡ false

last_index-Around : (path : Bytes) (i : ℕ) → last_index slash path ≡ some i → Around path i
unfolding last_index
last_index-Around [] i h = cc
last_index-Around (x ∷ xs) i h = elim (Option-cases (last_index slash xs)) [
  | inl e ↦
      let zero_index : 0 ≡ i = ground arith in
      let here : x ≡ slash = ground arith in
      subst (Around (x ∷ xs)) zero_index
        (record { parts = ap (λ (y : ℕ). y ∷ xs) here; last = last_index-none xs e })
  | inr (j, e) ↦
      let next_index : suc j ≡ i = ground arith in
      let a = last_index-Around xs j e in
      subst (Around (x ∷ xs)) next_index (record { parts = ap (λ l. x ∷ l) a.parts; last = a.last })
]

-- What is split off: the name is a plain entry, and the path is put together again.
record Rejoined (path parent name : Bytes) : Type 0 where
  plain : has_slash name ≡ false
  proper : ((length name == 0) || is_dots name) ≡ false
  rejoined : posix_join_path true parent name ≡ some path

split_at-some :
    (path parent name : Bytes) (allocated : Bool) (found : Option ℕ)
    → split_at allocated path found ≡ split parent name
    → (i : ℕ) × (found ≡ some i)
      × (name ≡ drop (suc i) path)
      × (parent ≡ take (parent_length i) path)
      × (((length name == 0) || is_dots name) ≡ false)
unfolding split_at
split_at-some path parent name allocated none h = cc
split_at-some path parent name allocated (some i) h =
    (i, refl, ground arith, ground arith, ground arith)

join_root :
    (name : Bytes)
    → length name + 1 < size_max - 2
    → posix_join_path true (slash ∷ []) name ≡ some (slash ∷ name)
unfolding posix_join_path
join_root name h = ground arith

join_plain :
    (parent name : Bytes)
    → is_root parent ≡ false
    → length parent + length name < size_max - 2
    → posix_join_path true parent name ≡ some (parent ++ (slash ∷ name))
unfolding posix_join_path
join_plain parent name r h = ground arith

-- Behind one byte stands the separator.
second : (path : Bytes) → Around path 1 → get_or path 1 0 ≡ slash
second [] a = absurd (omega (arith, ap length a.parts))
second (x ∷ xs) a = ap (λ (p : Bytes). get_or p 1 0) a.parts

Around-join :
    (path : Bytes) (i : ℕ)
    → Around path i
    → length path < size_max - 2
    → (get_or path 1 0 == slash) ≡ false
    → posix_join_path true (take (parent_length i) path) (drop (suc i) path) ≡ some path
Around-join path zero a l h =
    let start : take 1 path ≡ slash ∷ [] = ap (take 1) a.parts in
    let size = ap length a.parts in
    ap (λ p. posix_join_path true p (drop 1 path)) start
    ∙ join_root (drop 1 path) (omega (arith, size))
    ∙ ap some (sym a.parts)
Around-join path (suc zero) a l h = absurd (ground (arith, second path a))
Around-join path (suc (suc k)) a l h =
    let parent = take (suc (suc k)) path in
    let name = drop (suc (suc (suc k))) path in
    let size = ap length a.parts in
    let sum = length-append {0} parent (slash ∷ name) in
    let t = length-take {0} (suc (suc k)) path in
    let plain : is_root parent ≡ false =
      root_short parent (omega (arith, t, size, sum, length-drop {0} (suc (suc (suc k))) path)) in
    join_plain parent name plain (omega (arith, size, sum)) ∙ ap some (sym a.parts)
  where
    root_short : (p : Bytes) → 1 < length p → is_root p ≡ false
    root_short p q = ground arith

-- If a path that is shorter than SIZE_MAX - 2 bytes and has no second slash behind its first byte
-- is split: the name has no slash and is neither empty nor "." nor "..", and the parent and the
-- name are joined to the path again.
pub join-parent_and_name :
    (path parent name : Bytes)
    → posix_parent_and_name true path ≡ split parent name
    → length path < size_max - 2
    → (get_or path 1 0 == slash) ≡ false
    → (has_slash name ≡ false)
      × (((length name == 0) || is_dots name) ≡ false)
      × (posix_join_path true parent name ≡ some path)
unfolding posix_parent_and_name
join-parent_and_name path parent name h l d =
    let (i, found, n, p, proper) =
      split_at-some path parent name true (last_index slash path) (ground arith) in
    let a = last_index-Around path i found in
    (
      subst (λ m. has_slash m ≡ false) (sym n) a.last,
      proper,
      ap₂ (posix_join_path true) p n ∙ Around-join path i a l d,
    )

join_at_root :
    (root name : Bytes)
    → is_root root ≡ true
    → length name < size_max - 2
    → posix_join_path true root name ≡ some (root ++ name)
unfolding posix_join_path
join_at_root root name r h = ground arith

is_root-long : (path : Bytes) → 1 < length path → is_root path ≡ false
is_root-long path h = ground arith

relative_plain :
    (parent name : Bytes)
    → 0 < length parent
    → length parent + length name < size_max - 2
    → relative_join true parent name ≡ some (parent ++ (slash ∷ name))
unfolding relative_join
relative_plain parent name p h = ground arith

-- If the lengths are below SIZE_MAX - 8 together and the relative path of a directory is not empty,
-- the relative path of an entry, joined to the root of the walk, is the entry's name joined to the
-- full path of the directory.
pub join-relative_join :
    (root parent name relative directory : Bytes)
    → length root + length parent + length name < size_max - 8
    → 0 < length parent
    → relative_join true parent name ≡ some relative
    → posix_join_path true root parent ≡ some directory
    → posix_join_path true root relative ≡ posix_join_path true directory name
join-relative_join root parent name relative directory l n r d =
    let inner : relative ≡ parent ++ (slash ∷ name) = ground (arith, relative_plain parent name) in
    let inner_size = length-append {0} parent (slash ∷ name) in
    let size = ap length inner in
    elim (Bool-cases (is_root root)) [
      | inl e ↦
          let full : directory ≡ root ++ parent = ground (arith, join_at_root root parent) in
          let full_size = ap length full in
          let sum = length-append {0} root parent in
          let short : 0 < length root = ground arith in
          join_at_root root relative e (omega (arith, size, inner_size))
          ∙ ap some (
              ap (λ x. root ++ x) inner
              ∙ sym (append_assoc root parent (slash ∷ name))
              ∙ ap (λ x. x ++ (slash ∷ name)) (sym full))
          ∙ sym (
              join_plain directory name (is_root-long directory (omega (arith, full_size, sum)))
                (omega (arith, full_size, sum)))
      | inr e ↦
          let full : directory ≡ root ++ (slash ∷ parent) =
            ground (arith, join_plain root parent) in
          let full_size = ap length full in
          let sum = length-append {0} root (slash ∷ parent) in
          join_plain root relative e (omega (arith, size, inner_size))
          ∙ ap some (
              ap (λ x. root ++ (slash ∷ x)) inner
              ∙ sym (append_assoc root (slash ∷ parent) (slash ∷ name))
              ∙ ap (λ x. x ++ (slash ∷ name)) (sym full))
          ∙ sym (
              join_plain directory name (is_root-long directory (omega (arith, full_size, sum)))
                (omega (arith, full_size, sum)))
    ]
