-- ===== src/Paths/Vector.antt =====
-- The vector of a walk: its bounds on every branch, and its content when memory is given.
use yaca.Base.{
  ℕ, suc, ◌-◌, ◌≤◌, ◌<◌, true, false, List, [], ◌∷◌, ◌++◌, append_assoc, append-nil, ltb, lt-cases,
  ◌||◌, Bytes, length, length-append, take, take-all, ◌≡◌, arith, ap, ◌∙◌, sym, inl, inr,
}
use yaca.Paths.{PathVector, Given, append_path}

-- The items lie in the allocated part, which is no larger than the maximum.
pub record IsBounded (v : PathVector) : Type 0 where
  pub inside : length v.items ≤ v.capacity
  pub capped : v.capacity ≤ v.maximum
  pub small : v.maximum < 0x1000000000000000

-- A call on a bounded vector, whatever memory is given, leaves it bounded with the same maximum.
pub append_path-IsBounded :
    (given : Given) (path : Bytes) (v : PathVector)
    → IsBounded v
    → IsBounded (append_path given path v).0 × ((append_path given path v).0.maximum ≡ v.maximum)
unfolding append_path
append_path-IsBounded given path v b = ground (arith, length-append {0} v.items (path ∷ []))

abbrev pub enough : Given
enough = record { realloc = true; strdup = true }

unfoldable pub append_paths : List Bytes → PathVector → PathVector
append_paths [] v = v
append_paths (path ∷ paths) v = append_paths paths (append_path enough path v).0

-- One call with enough memory.
step-full :
    (path : Bytes) (v : PathVector)
    → v.maximum ≤ length v.items
    → ((append_path enough path v).0.items ≡ v.items)
      × ((append_path enough path v).0.truncated ≡ true)
unfolding append_path
step-full path v h = ground arith

step-free :
    (path : Bytes) (v : PathVector)
    → length v.items < v.maximum
    → ((append_path enough path v).0.items ≡ v.items ++ (path ∷ []))
      × ((append_path enough path v).0.truncated ≡ v.truncated)
unfolding append_path
step-free path v h = ground arith

-- The paths that still find a place, and whether some do not.
record Collected (v : PathVector) (paths : List Bytes) (w : PathVector) : Type 0 where
  items : w.items ≡ v.items ++ take (v.maximum - length v.items) paths
  marked : w.truncated ≡ (v.truncated || ltb (v.maximum - length v.items) (length paths))

append_paths-Collected :
    (paths : List Bytes) (v : PathVector) → IsBounded v → Collected v paths (append_paths paths v)
unfolding append_paths
append_paths-Collected [] v b = record {
  items = sym (
      ap (λ l. v.items ++ l) (take-all (v.maximum - length v.items) [] (omega arith))
      ∙ append-nil v.items);
  marked = ground arith;
}
append_paths-Collected (path ∷ paths) v b =
    let w = (append_path enough path v).0 in
    let (bounded, same) = append_path-IsBounded enough path v b in
    let rest = append_paths-Collected paths w bounded in
    elim (lt-cases (length v.items) v.maximum) [
      | inl free ↦
          let (e, t) = step-free path v free in
          let size = length-append {0} v.items (path ∷ []) in
          let len = ap length e in
          let left : v.maximum - length v.items ≡ suc (w.maximum - length w.items) =
            omega (arith, size, len, same) in
          record {
            items =
                rest.items
                ∙ ap (λ (l : List Bytes). l ++ take (w.maximum - length w.items) paths) e
                ∙ append_assoc v.items (path ∷ []) (take (w.maximum - length w.items) paths)
                ∙ ap (λ (n : ℕ). v.items ++ take n (path ∷ paths)) (sym left);
            marked = ground (arith, rest.marked, t, left);
          }
      | inr full ↦
          let (e, t) = step-full path v full in
          let len = ap length e in
          let none_left : v.maximum - length v.items ≡ 0 = omega arith in
          let none_later : w.maximum - length w.items ≡ 0 = omega (arith, len, same) in
          record {
            items =
                rest.items
                ∙ ap (λ (n : ℕ). w.items ++ take n paths) none_later
                ∙ append-nil w.items
                ∙ e
                ∙ sym (append-nil v.items)
                ∙ ap (λ (n : ℕ). v.items ++ take n (path ∷ paths)) (sym none_left);
            marked = ground (arith, rest.marked, t, none_left, none_later);
          }
    ]

abbrev pub empty_vector : ℕ → PathVector
empty_vector maximum = record { items = []; capacity = 0; maximum = maximum; truncated = false }

-- With enough memory and a maximum below 2 ^ 60, paths that are appended to an empty vector are
-- there in their order up to the maximum, and the vector is marked as truncated exactly if there
-- are more.
pub append_paths-take :
    (paths : List Bytes) (maximum : ℕ)
    → maximum < 0x1000000000000000
    → ((append_paths paths (empty_vector maximum)).items ≡ take maximum paths)
      × ((append_paths paths (empty_vector maximum)).truncated ≡ ltb maximum (length paths))
append_paths-take paths maximum h =
    let c =
      append_paths-Collected paths (empty_vector maximum)
        (record { inside = omega arith; capped = omega arith; small = h }) in
    let whole : maximum - 0 ≡ maximum = omega arith in
    (
      c.items ∙ ap (λ (n : ℕ). take n paths) whole,
      c.marked ∙ ap (λ (n : ℕ). ltb n (length paths)) whole,
    )
