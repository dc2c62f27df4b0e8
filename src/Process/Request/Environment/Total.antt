-- ===== src/Process/Request/Environment/Total.antt =====
-- An admitted environment is built when memory is given.
use yaca.Base.{
  ℕ, suc, ◌+◌, ◌*◌, ◌/◌, ◌≤◌, true, false, some, [], ◌∷◌, ◌++◌, length, length-append, ◌≡◌, refl,
  arith, ap, ◌∙◌, codes, ◌==◌, Bool-cases, inl, inr,
}
use yaca.Process.Request.{Value, Entries, entry, no_entry, string, table, field, size_max}
use yaca.Process.Request.Environment.{
  Memory, Environment, is_refused, equals_sign, grow, put, add_entry, add_entries, and_then,
  empty_environment, of_table, build_posix_environment,
}
use yaca.Process.Request.Environment.Proof.{all_admitted, is_admitted, number}

-- The memory is always given.
pub record IsAmple (memory : Memory) : Type 0 where
  pub calloc : memory.calloc ≡ true
  pub realloc : (n : ℕ) → memory.realloc n ≡ true
  pub malloc : (n : ℕ) → memory.malloc n ≡ true

-- The vector has no more than twice the room that it needs, and the entries left fit `limit`.
record HasRoom (e : Environment) (left : ℕ) : Type 0 where
  bounded : e.capacity ≤ 8 + 2 * length e.items
  fits : 8 + 2 * (length e.items + left) ≤ size_max / 2 / 8

grow-IsAmple :
    (memory : Memory) (e : Environment) (left : ℕ)
    → IsAmple memory
    → HasRoom e left
    → (capacity : ℕ) × (grow memory e ≡ some capacity) × (capacity ≤ 8 + 2 * (length e.items + 1))
unfolding grow
grow-IsAmple memory e left a r = elim (Bool-cases (length e.items == e.capacity)) [
  | inl full ↦ (e.capacity * 2, ground (arith, a.realloc (length e.items)), ground arith)
  | inr free ↦ (e.capacity, rw free refl, ground arith)
]

add_entry-IsAmple :
    (memory : Memory) (e : Environment) (key value : Value) (left : ℕ)
    → IsAmple memory
    → is_admitted key value ≡ true
    → HasRoom e (suc left)
    → (e' : Environment) × (add_entry memory e key value ≡ some e') × HasRoom e' left
unfolding add_entry
add_entry-IsAmple memory e (string name) (string value) left a admitted r =
    let (capacity, g, small) = grow-IsAmple memory e (suc left) a r in
    let l = length-append {0} e.items ((name ++ (equals_sign ∷ value)) ∷ []) in
    let kept : is_refused name value ≡ false = ground arith in
    (
      put e name value capacity,
      rw (kept, g, a.malloc (length e.items)) refl,
      record { bounded = omega (arith, l, small); fits = omega (arith, l, r.fits) },
    )
add_entry-IsAmple memory e (string name) Value.nil left a admitted r = cc
add_entry-IsAmple memory e (string name) Value.other left a admitted r = cc
add_entry-IsAmple memory e (string name) (Value.integer z) left a admitted r = cc
add_entry-IsAmple memory e (string name) (table t) left a admitted r = cc
add_entry-IsAmple memory e Value.nil value left a admitted r = cc
add_entry-IsAmple memory e Value.other value left a admitted r = cc
add_entry-IsAmple memory e (Value.integer z) value left a admitted r = cc
add_entry-IsAmple memory e (table t) value left a admitted r = cc

add_entries-IsAmple :
    (memory : Memory) (entries : Entries) (e : Environment)
    → IsAmple memory
    → all_admitted entries ≡ true
    → HasRoom e (number entries)
    → (e' : Environment) × (add_entries memory entries e ≡ some e')
unfolding add_entries all_admitted number
add_entries-IsAmple memory no_entry e a admitted r = (e, refl)
add_entries-IsAmple memory (entry key value rest) e a admitted r =
    let (middle, m, room) = add_entry-IsAmple memory e key value (number rest) a (ground arith) r in
    let (e', h) = add_entries-IsAmple memory rest middle a (ground arith) room in
    (e', ap (and_then (add_entries memory rest)) m ∙ h)

-- If the memory is always given, the environment is a table whose names and values are all
-- admitted, and it has at most 2 ^ 58 entries, then it is built.
pub build_posix_environment-IsAmple :
    (memory : Memory) (request entries : Entries)
    → IsAmple memory
    → field (codes "environment") request ≡ table entries
    → all_admitted entries ≡ true
    → number entries ≤ 0x400000000000000
    → (e : Environment) × (build_posix_environment memory request ≡ some e)
unfolding build_posix_environment of_table
build_posix_environment-IsAmple memory request entries a t admitted few =
    let (e, h) =
      add_entries-IsAmple memory entries empty_environment a admitted
        (record { bounded = omega arith; fits = omega arith }) in
    (e, ap (of_table memory) t ∙ rw a.calloc h)
