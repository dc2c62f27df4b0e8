-- ===== src/Process/Request/Arguments/Dense.antt =====
-- An admitted table of arguments has no hole, so the vector ends at its own NULL and not before.
use yaca.Base.{
  ℕ, suc, zero, ◌+◌, ◌≤◌, ◌<◌, Bool, true, false, ◌&&◌, Option, none, some, List, [], ◌∷◌, ◌++◌,
  ◌==◌, Bytes, length, if◌then◌else◌, ◌≡◌, refl, arith, ap, ◌∙◌, sym, subst, codes, Bool-cases, inl,
  inr,
}
use yaca.Base.Int.{pos, negsuc}
use yaca.Process.Request.{Value, Entries, entry, no_entry, string, table, integer, field, contains}
use yaca.Process.Request.Arguments.{
  is_argument, observe, count_of, request_component_argument_count, is_key, raw_get, supplied,
  vector_of, entries_of, build_posix_arguments,
}

-- How often an index is a key.
unfoldable pub occurrences : ℕ → Entries → ℕ
occurrences index no_entry = 0
occurrences index (entry key value rest) =
    (if is_key index key then 1 else 0) + occurrences index rest

pub number : Entries → ℕ
number no_entry = 0
number (entry key value rest) = suc (number rest)

all_arguments : ℕ → Entries → Bool
all_arguments raw_count no_entry = true
all_arguments raw_count (entry key value rest) =
    is_argument raw_count key value && all_arguments raw_count rest

-- The keys up to `n`, counted by index.
total : ℕ → Entries → ℕ
total zero entries = 0
total (suc n) entries = occurrences (suc n) entries + total n entries

total-no_entry : (n : ℕ) → total n no_entry ≡ 0
unfolding total occurrences
total-no_entry zero = refl
total-no_entry (suc n) = omega (arith, total-no_entry n)

total-above :
    (n key : ℕ) (value : Value) (rest : Entries)
    → n < key
    → total n (entry (integer (pos key)) value rest) ≡ total n rest
unfolding total occurrences
total-above zero key value rest h = refl
total-above (suc n) key value rest h = ground (arith, total-above n key value rest)

total-entry :
    (n key : ℕ) (value : Value) (rest : Entries)
    → 1 ≤ key
    → key ≤ n
    → total n (entry (integer (pos key)) value rest) ≡ suc (total n rest)
unfolding total occurrences
total-entry zero key value rest l h = absurd (omega arith)
total-entry (suc n) key value rest l h =
    ground (arith, total-entry n key value rest, total-above n key value rest)

total-number :
    (n : ℕ) (entries : Entries) → all_arguments n entries ≡ true → total n entries ≡ number entries
unfolding all_arguments number
total-number n no_entry h = total-no_entry n
total-number n (entry (integer (pos key)) (string value) rest) h =
    ground (arith, total-entry n key (string value) rest, total-number n rest)
total-number n (entry (integer (pos key)) Value.nil rest) h = cc
total-number n (entry (integer (pos key)) Value.other rest) h = cc
total-number n (entry (integer (pos key)) (integer z) rest) h = cc
total-number n (entry (integer (pos key)) (table t) rest) h = cc
total-number n (entry (integer (negsuc key)) value rest) h = cc
total-number n (entry Value.nil value rest) h = cc
total-number n (entry Value.other value rest) h = cc
total-number n (entry (string key) value rest) h = cc
total-number n (entry (table key) value rest) h = cc

module _ (entries : Entries) (distinct : (index : ℕ) → occurrences index entries ≤ 1) where
  total-le : (n : ℕ) → total n entries ≤ n
  unfolding total
  total-le zero = omega arith
  total-le (suc n) = omega (arith, total-le n, distinct (suc n))

  total_full :
      (n index : ℕ) → n ≤ total n entries → 1 ≤ index → index ≤ n → occurrences index entries ≡ 1
  unfolding total
  total_full zero index f l h = absurd (omega arith)
  total_full (suc n) index f l h = elim (Bool-cases (index == suc n)) [
    | inl e ↦
        let same : index ≡ suc n = ground arith in
        subst (λ i. occurrences i entries ≡ 1) (sym same)
          (omega (arith, total-le n, distinct (suc n)))
    | inr e ↦ total_full n index (omega (arith, distinct (suc n))) l (ground arith)
  ]

-- A key that is there is read, and its value has no NUL.
raw_get-occurrences :
    (n index : ℕ) (entries : Entries)
    → all_arguments n entries ≡ true
    → 0 < occurrences index entries
    → (value : Bytes) × (raw_get index entries ≡ some value) × (contains 0 value ≡ false)
unfolding all_arguments occurrences raw_get
raw_get-occurrences n index no_entry a h = absurd (omega arith)
raw_get-occurrences n index (entry (integer (pos key)) (string value) rest) a h =
    elim (Bool-cases (key == index)) [
      | inl e ↦ (value, rw e refl, ground arith)
      | inr e ↦
          let (v, r, c) = raw_get-occurrences n index rest (ground arith) (ground arith) in
          (v, rw e r, c)
    ]
raw_get-occurrences n index (entry (integer (pos key)) Value.nil rest) a h = cc
raw_get-occurrences n index (entry (integer (pos key)) Value.other rest) a h = cc
raw_get-occurrences n index (entry (integer (pos key)) (integer z) rest) a h = cc
raw_get-occurrences n index (entry (integer (pos key)) (table t) rest) a h = cc
raw_get-occurrences n index (entry (integer (negsuc key)) value rest) a h = cc
raw_get-occurrences n index (entry Value.nil value rest) a h = cc
raw_get-occurrences n index (entry Value.other value rest) a h = cc
raw_get-occurrences n index (entry (string key) value rest) a h = cc
raw_get-occurrences n index (entry (table key) value rest) a h = cc

observe-number :
    (n observed m : ℕ) (entries : Entries)
    → observe n observed entries ≡ some m
    → (m ≡ observed + number entries) × (all_arguments n entries ≡ true)
unfolding observe number all_arguments
observe-number n observed m no_entry h = ground arith
observe-number n observed m (entry key value rest) h =
    ground (arith, observe-number n (observed + 1) m rest)

-- The values of the keys from an index on, none of which has a NUL.
abbrev pub Reads : ℕ → Entries → List Bytes → Type 0
Reads index arguments [] = Unit {0}
Reads index arguments (value ∷ values) =
    (raw_get index arguments ≡ some value)
    × (contains 0 value ≡ false)
    × Reads (index + 1) arguments values

abbrev pub present : List Bytes → List (Option Bytes)
present [] = []
present (value ∷ values) = some value ∷ present values

supplied-Reads :
    (arguments : Entries) (n : ℕ)
    → all_arguments n arguments ≡ true
    → ((index : ℕ) → 1 ≤ index → index ≤ n → occurrences index arguments ≡ 1)
    → (left index : ℕ) → 1 ≤ index
    → index + left ≤ n + 1
    → (values : List Bytes) × (supplied left index arguments ≡ present values)
      × (length values ≡ left)
      × Reads index arguments values
unfolding supplied
supplied-Reads arguments n a full zero index l r = ([], refl, refl, tt)
supplied-Reads arguments n a full (suc left) index l r =
    let there = full index l (omega arith) in
    let (value, e, c) = raw_get-occurrences n index arguments a (omega arith) in
    let (values, es, len, reads) =
      supplied-Reads arguments n a full left (index + 1) (omega arith) (omega arith) in
    (value ∷ values, rw (e, es) refl, ap suc len, (e, c, reads))

vector_of-some :
    (allocated : Bool) (executable : Bytes) (request : Entries) (counted : Option ℕ)
    (vector : List (Option Bytes))
    → vector_of allocated executable request counted ≡ some vector
    → (count : ℕ) × (counted ≡ some count)
      × (vector
          ≡ some executable
            ∷ (supplied count 1 (entries_of (field (codes "arguments") request)) ++ (none ∷ [])))
vector_of-some allocated executable request none vector h = cc
vector_of-some allocated executable request (some count) vector h = (count, refl, ground arith)

count_of-some :
    (raw_count : ℕ) (arguments : Entries) (count : ℕ)
    → count_of raw_count (table arguments) ≡ some count
    → (count ≡ raw_count) × (observe raw_count 0 arguments ≡ some count)
count_of-some raw_count arguments count h = ground arith

-- If the keys of the table are distinct and the vector of arguments is built, then it is the
-- executable, the values of the keys 1, 2 and so on up to the number that Lua gives as the
-- length, none of which is missing or has a NUL, and a final NULL.
pub build_posix_arguments-Reads :
    (allocated : Bool) (raw_count : ℕ) (executable : Bytes) (request arguments : Entries)
    (vector : List (Option Bytes))
    → field (codes "arguments") request ≡ table arguments
    → ((index : ℕ) → occurrences index arguments ≤ 1)
    → build_posix_arguments allocated raw_count executable request ≡ some vector
    → (values : List Bytes) × (vector ≡ some executable ∷ (present values ++ (none ∷ [])))
      × (length values ≡ raw_count)
      × Reads 1 arguments values
unfolding build_posix_arguments
build_posix_arguments-Reads allocated raw_count executable request arguments vector t distinct h =
    let (count, c, v) =
      vector_of-some allocated executable request
        (request_component_argument_count raw_count request) vector h in
    let (same, o) = count_of-some raw_count arguments count (sym (ap (count_of raw_count) t) ∙ c) in
    let (m, a) = observe-number raw_count 0 count arguments o in
    let whole = total-number raw_count arguments a in
    let (values, es, len, reads) =
      supplied-Reads arguments raw_count a
        (λ index l u.
          total_full arguments distinct raw_count index (omega (arith, whole, same, m)) l u)
        count 1 (omega arith) (omega (arith, same)) in
    (
      values,
      v
          ∙ ap (λ (x : Entries). some executable ∷ (supplied count 1 x ++ (none ∷ [])))
              (ap entries_of t)
          ∙ ap (λ (l : List (Option Bytes)). some executable ∷ (l ++ (none ∷ []))) es,
      len ∙ same,
      reads,
    )
