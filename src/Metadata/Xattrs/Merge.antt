-- ===== src/Metadata/Xattrs/Merge.antt =====
-- `synchronize_descriptor_xattrs`: the merge of two sorted sets, which brings the first to the
-- second.
pub mod Proof
use yaca.Base.{
  ℕ, zero, suc, ◌+◌, ◌≤◌, Bool, true, false, not, Option, none, some, List, [], ◌∷◌, ◌==◌, ltb, ◌≡◌,
  refl, arith, Bytes, length, if◌then◌else◌, Bool-cases, inl, inr,
}
use yaca.Metadata.{Attribute, same_bytes}
use yaca.Metadata.Xattrs.{Calls, Order, before, same, after, compare_names, by_byte}

-- A call of the merge: `fremovexattr`, or `fsetxattr` with a value.
pub data Change : Type 0 where
  removed : Bytes → Change
  set : Bytes → Bytes → Change

abbrev pub set_unless : Bool → Attribute → List Change → List Change
set_unless true wanted rest = rest
set_unless false wanted rest = set wanted.name wanted.value ∷ rest

-- One round with an item of each, by the order of their names.
abbrev pub round :
    (List Attribute → List Attribute → List Change)
    → Attribute
    → List Attribute
    → Attribute
    → List Attribute
    → Order
    → List Change
round next present current wanted required before =
    removed present.name ∷ next current (wanted ∷ required)
round next present current wanted required after =
    set wanted.name wanted.value ∷ next (present ∷ current) required
round next present current wanted required same =
    set_unless (same_bytes present.value wanted.value) wanted (next current required)

-- The calls of the loop in their order, as long as none fails; each round takes one item at least,
-- so that the fuel is the number of items.
unfoldable pub merge : ℕ → List Attribute → List Attribute → List Change
unfolding compare_names
merge zero current required = []
merge (suc fuel) [] [] = []
merge (suc fuel) [] (wanted ∷ required) = set wanted.name wanted.value ∷ merge fuel [] required
merge (suc fuel) (present ∷ current) [] = removed present.name ∷ merge fuel current []
merge (suc fuel) (present ∷ current) (wanted ∷ required) =
    round (λ current required. merge fuel current required) present current wanted required
      (compare_names present.name wanted.name)

module _ {W : Type 0} (calls : Calls W) where
  abbrev pub call : ℕ → Change → W → Option ℕ × W
  call descriptor (removed name) world = calls.remove descriptor name world
  call descriptor (set name value) world = calls.set_value descriptor name value world

  abbrev pub unless_refused : (W → Option ℕ × W) → Option ℕ × W → Option ℕ × W
  unless_refused rest (some errno, world) = (some errno, world)
  unless_refused rest (none, world) = rest world

  -- The first failure ends the loop.
  unfoldable pub run : ℕ → List Change → W → Option ℕ × W
  run descriptor [] world = (none, world)
  run descriptor (change ∷ changes) world =
      unless_refused (λ world. run descriptor changes world) (call descriptor change world)

  unfoldable pub synchronize_descriptor_xattrs :
      ℕ → List Attribute → List Attribute → W → Option ℕ × W
  unfolding run merge
  synchronize_descriptor_xattrs descriptor current required world =
      run descriptor (merge (length current + length required) current required) world

-- The attributes of a file, by their names, and what the calls make of them.
abbrev pub Store : Type 0
Store = Bytes → Option Bytes

abbrev pub apply : Change → Store → Store
apply (removed name) store wanted = if same_bytes wanted name then none else store wanted
apply (set name value) store wanted = if same_bytes wanted name then some value else store wanted

abbrev pub apply_all : List Change → Store → Store
apply_all [] store = store
apply_all (change ∷ changes) store = apply_all changes (apply change store)

abbrev pub value_of : List Attribute → Store
value_of [] name = none
value_of (a ∷ attributes) name =
    if same_bytes name a.name then some a.value else value_of attributes name

abbrev pub AllAfter : Bytes → List Attribute → Type 0
AllAfter name [] = Unit {0}
AllAfter name (a ∷ attributes) = (compare_names name a.name ≡ before) × AllAfter name attributes

-- Sorted by `strcmp`, and no name twice.
abbrev pub IsSorted : List Attribute → Type 0
IsSorted [] = Unit {0}
IsSorted (a ∷ attributes) = AllAfter a.name attributes × IsSorted attributes
