-- ===== src/Process/Request/Environment/Proof.antt =====
-- What the vector of an environment has in it, and when it is built.
use yaca.Base.{
  ℕ, suc, ◌+◌, ◌≤◌, ◌<◌, Bool, true, false, ◌&&◌, not, Option, none, some, List, [], ◌∷◌, ◌++◌,
  append_assoc, append-nil, ◌==◌, Bytes, length, length-append, if◌then◌else◌, ◌≡◌, refl, arith, ap,
  ◌∙◌, sym, subst, codes, Bool-cases, inl, inr, Option-cases,
}
use yaca.Process.Request.{Value, Entries, entry, no_entry, string, table, field, contains}
use yaca.Process.Request.Environment.{
  Memory, Environment, is_refused, equals_sign, grow, put, put_allocated, add_entry, add_entries,
  and_then, empty_environment, of_table, build_posix_environment,
}

-- All names and values are strings that pass the tests.
abbrev pub is_admitted : Value → Value → Bool
is_admitted (string name) (string value) = not (is_refused name value)
is_admitted key value = false

unfoldable pub all_admitted : Entries → Bool
all_admitted no_entry = true
all_admitted (entry key value rest) = is_admitted key value && all_admitted rest

-- The byte is nowhere in the text.
abbrev pub Lacks : ℕ → Bytes → Type 0
Lacks byte [] = Unit {0}
Lacks byte (b ∷ bytes) = (¬ (b ≡ byte)) × Lacks byte bytes

-- A name and a value that an environment can hold.
abbrev pub IsPair : Value → Value → Type 0
IsPair (string name) (string value) =
    (1 ≤ length name) × Lacks 0 name × Lacks equals_sign name × Lacks 0 value
IsPair key value = ⊥

abbrev pub AllPairs : Entries → Type 0
AllPairs no_entry = Unit {0}
AllPairs (entry key value rest) = IsPair key value × AllPairs rest

contains-Lacks : (byte : ℕ) (bytes : Bytes) → contains byte bytes ≡ false → Lacks byte bytes
contains-Lacks byte [] h = tt
contains-Lacks byte (b ∷ bytes) h =
    (λ e. absurd (ground (arith, e, h)), contains-Lacks byte bytes (ground (arith, h)))

is_refused-IsPair :
    (name value : Bytes) → is_refused name value ≡ false → IsPair (string name) (string value)
is_refused-IsPair name value h = (
  ground (arith, h),
  contains-Lacks 0 name (ground (arith, h)),
  contains-Lacks equals_sign name (ground (arith, h)),
  contains-Lacks 0 value (ground (arith, h)),
)

abbrev pub bytes_of : Value → Bytes
bytes_of (string bytes) = bytes
bytes_of value = []

-- The names and values of a table, in its order.
unfoldable pub pairs : Entries → List (Bytes × Bytes)
pairs no_entry = []
pairs (entry key value rest) = (bytes_of key, bytes_of value) ∷ pairs rest

unfoldable pub number : Entries → ℕ
number no_entry = 0
number (entry key value rest) = suc (number rest)

-- How a program reads an item: the name goes up to the first equals sign.
abbrev pub push_name : ℕ → Bytes × Bytes → Bytes × Bytes
push_name byte (name, value) = (byte ∷ name, value)

abbrev pub split_item : Bytes → Bytes × Bytes
split_item [] = ([], [])
split_item (byte ∷ bytes) =
    if byte == equals_sign then ([], bytes) else push_name byte (split_item bytes)

abbrev pub split_items : List Bytes → List (Bytes × Bytes)
split_items [] = []
split_items (item ∷ items) = split_item item ∷ split_items items

split_items-append :
    (xs ys : List Bytes) → split_items (xs ++ ys) ≡ split_items xs ++ split_items ys
split_items-append [] ys = refl
split_items-append (x ∷ xs) ys = ap (λ l. split_item x ∷ l) (split_items-append xs ys)

split-item :
    (name value : Bytes)
    → contains equals_sign name ≡ false
    → split_item (name ++ (equals_sign ∷ value)) ≡ (name, value)
split-item [] value h = refl
split-item (c ∷ name) value h = elim (Bool-cases (c == equals_sign)) [
  | inl e ↦ absurd (ground arith)
  | inr e ↦ rw e (ap (push_name c) (split-item name value (ground arith)))
]

-- The entries, and the NULL behind them, lie in the vector.
pub record Fits (e : Environment) : Type 0 where
  pub inside : length e.items ≤ e.capacity
  pub positive : 0 < e.capacity
  pub written : e.highest ≤ e.capacity

record Added (before : Environment) (key value : Value) (e : Environment) : Type 0 where
  fits : Fits e
  admitted : IsPair key value
  reads : split_items e.items ≡ split_items before.items ++ ((bytes_of key, bytes_of value) ∷ [])

grow-room :
    (memory : Memory) (e : Environment) (capacity : ℕ)
    → Fits e
    → grow memory e ≡ some capacity
    → (length e.items + 1 ≤ capacity) × (0 < capacity)
unfolding grow
grow-room memory e capacity f h = ground arith

put-Fits :
    (e : Environment) (name value : Bytes) (capacity : ℕ)
    → length e.items + 1 ≤ capacity
    → 0 < capacity
    → Fits (put e name value capacity)
put-Fits e name value capacity r p = record {
  inside = omega (arith, length-append {0} e.items ((name ++ (equals_sign ∷ value)) ∷ []));
  positive = p;
  written = r;
}

put_allocated-put :
    (memory : Memory) (e e' : Environment) (name value : Bytes) (grown : Option ℕ)
    → put_allocated memory e name value grown ≡ some e'
    → (capacity : ℕ) × (grown ≡ some capacity) × (e' ≡ put e name value capacity)
put_allocated-put memory e e' name value none h = cc
put_allocated-put memory e e' name value (some capacity) h = (capacity, refl, ground arith)

put-Added :
    (memory : Memory) (e e' : Environment) (name value : Bytes)
    → Fits e
    → is_refused name value ≡ false
    → put_allocated memory e name value (grow memory e) ≡ some e'
    → Added e (string name) (string value) e'
put-Added memory e e' name value f admitted h =
    let (capacity, g, same) = put_allocated-put memory e e' name value (grow memory e) h in
    let (room, positive) = grow-room memory e capacity f g in
    subst (Added e (string name) (string value)) (sym same) (record {
      fits = put-Fits e name value capacity room positive;
      admitted = is_refused-IsPair name value admitted;
      reads =
          split_items-append e.items _
          ∙ ap (λ (x : Bytes × Bytes). split_items e.items ++ (x ∷ []))
              (split-item name value (ground arith));
    })

add_entry-Added :
    (memory : Memory) (e e' : Environment) (key value : Value)
    → Fits e
    → add_entry memory e key value ≡ some e'
    → Added e key value e'
unfolding add_entry
add_entry-Added memory e e' (string name) (string value) f h =
    elim (Bool-cases (is_refused name value)) [
      | inl refused ↦ absurd (ground arith)
      | inr admitted ↦ put-Added memory e e' name value f admitted (ground arith)
    ]
add_entry-Added memory e e' (string name) Value.nil f h = cc
add_entry-Added memory e e' (string name) Value.other f h = cc
add_entry-Added memory e e' (string name) (Value.integer z) f h = cc
add_entry-Added memory e e' (string name) (table t) f h = cc
add_entry-Added memory e e' Value.nil value f h = cc
add_entry-Added memory e e' Value.other value f h = cc
add_entry-Added memory e e' (Value.integer z) value f h = cc
add_entry-Added memory e e' (table t) value f h = cc

-- What is built of entries behind what was there.
record Built (before : List (Bytes × Bytes)) (entries : Entries) (e : Environment) : Type 0 where
  fits : Fits e
  admitted : AllPairs entries
  reads : split_items e.items ≡ before ++ pairs entries

later-Built :
    (before : Environment) (key value : Value) (rest : Entries) (middle e : Environment)
    → Added before key value middle
    → Built (split_items middle.items) rest e
    → Built (split_items before.items) (entry key value rest) e
unfolding pairs
later-Built before key value rest middle e a b = record {
  fits = b.fits;
  admitted = (a.admitted, b.admitted);
  reads =
      b.reads
      ∙ ap (λ (l : List (Bytes × Bytes)). l ++ pairs rest) a.reads
      ∙ append_assoc (split_items before.items) ((bytes_of key, bytes_of value) ∷ []) (pairs rest);
}

add_entries-Built :
    (memory : Memory) (entries : Entries) (before e : Environment)
    → Fits before
    → add_entries memory entries before ≡ some e
    → Built (split_items before.items) entries e
unfolding add_entries
add_entries-Built memory no_entry before e f h =
    let same : before ≡ e = cc in
    subst (Built (split_items before.items) no_entry) same (record {
      fits = f;
      admitted = tt;
      reads = unfold pairs in sym (append-nil (split_items before.items));
    })
add_entries-Built memory (entry key value rest) before e f h =
    elim (Option-cases (add_entry memory before key value)) [
      | inl refused ↦ absurd (ground arith)
      | inr (middle, m) ↦
          let a = add_entry-Added memory before middle key value f m in
          later-Built before key value rest middle e a (
            add_entries-Built memory rest middle e a.fits
              (sym (ap (and_then (add_entries memory rest)) m) ∙ h))
    ]

from_table :
    (memory : Memory) (entries : Entries) (e : Environment)
    → of_table memory (table entries) ≡ some e
    → add_entries memory entries empty_environment ≡ some e
unfolding of_table
from_table memory entries e h = ground arith

-- An environment that is built: all names and values of the table are strings, the names nonempty
-- and without an equals sign, and none has a NUL; each item, cut at its first equals sign, gives
-- back the name and the value, in the order of the table; and the last index that was written, that
-- of the final NULL, lies in the vector.
pub build_posix_environment-pairs :
    (memory : Memory) (request entries : Entries) (e : Environment)
    → field (codes "environment") request ≡ table entries
    → build_posix_environment memory request ≡ some e
    → AllPairs entries × (split_items e.items ≡ pairs entries) × (e.highest ≤ e.capacity)
unfolding build_posix_environment
build_posix_environment-pairs memory request entries e t h =
    let begun : of_table memory (table entries) ≡ some e = ap (of_table memory) (sym t) ∙ h in
    let loop : add_entries memory entries empty_environment ≡ some e =
      from_table memory entries e begun in
    let b =
      add_entries-Built memory entries empty_environment e
        (record { inside = omega arith; positive = omega arith; written = omega arith }) loop in
    (b.admitted, b.reads, b.fits.written)
