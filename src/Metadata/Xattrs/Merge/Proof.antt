-- ===== src/Metadata/Xattrs/Merge/Proof.antt =====
-- The merge brings a sorted set to another.
use yaca.Base.{
  ℕ, zero, suc, ◌+◌, ◌≤◌, ◌<◌, Bool, true, false, Option, none, some, List, [], ◌∷◌, ◌≡◌, refl, sym,
  subst, ◌∙◌, arith, Bytes, length, Bool-cases, inl, inr,
}
use yaca.Metadata.{Attribute, same_bytes}
use yaca.Metadata.Digest.{same_bytes-eq}
use yaca.Metadata.Xattrs.{Order, before, same, after, compare_names}
use yaca.Metadata.Xattrs.Merge.{
  Change, removed, set, set_unless, merge, round, Store, apply, apply_all, value_of, AllAfter,
  IsSorted,
}

compare-same : (x y : Bytes) → compare_names x y ≡ same → x ≡ y
unfolding compare_names
compare-same [] [] h = refl
compare-same [] (y ∷ ys) h = ground arith
compare-same (x ∷ xs) [] h = ground arith
compare-same (x ∷ xs) (y ∷ ys) h = ground (arith, compare-same xs ys)

compare_refl : (x : Bytes) → compare_names x x ≡ same
unfolding compare_names
compare_refl [] = refl
compare_refl (x ∷ xs) = ground (arith, compare_refl xs)

compare-after : (x y : Bytes) → compare_names x y ≡ after → compare_names y x ≡ before
unfolding compare_names
compare-after [] [] h = ground arith
compare-after [] (y ∷ ys) h = ground arith
compare-after (x ∷ xs) [] h = refl
compare-after (x ∷ xs) (y ∷ ys) h = ground (arith, compare-after xs ys)

before_trans :
    (x y z : Bytes)
    → compare_names x y ≡ before
    → compare_names y z ≡ before
    → compare_names x z ≡ before
unfolding compare_names
before_trans [] [] z h k = ground arith
before_trans [] (y ∷ ys) [] h k = ground arith
before_trans [] (y ∷ ys) (z ∷ zs) h k = refl
before_trans (x ∷ xs) [] z h k = ground arith
before_trans (x ∷ xs) (y ∷ ys) [] h k = ground arith
before_trans (x ∷ xs) (y ∷ ys) (z ∷ zs) h k = ground (arith, before_trans xs ys zs)

AllAfter-trans :
    (x y : Bytes) (list : List Attribute)
    → compare_names x y ≡ before
    → AllAfter y list
    → AllAfter x list
AllAfter-trans x y [] h k = tt
AllAfter-trans x y (a ∷ list) h (k, l) = (before_trans x y a.name h k, AllAfter-trans x y list h l)

-- A name before all others is none of them.
value_of-AllAfter :
    (name : Bytes) (list : List Attribute) → AllAfter name list → value_of list name ≡ none
value_of-AllAfter name [] h = refl
value_of-AllAfter name (a ∷ list) (h, k) = elim (Bool-cases (same_bytes name a.name)) [
  | inl e ↦ ground (arith, compare_refl name, same_bytes-eq name a.name e, h)
  | inr e ↦ ground (arith, value_of-AllAfter name list k)
]

-- What a name has in the end, by what it had to be, whether it was listed, and what it was.
abbrev settled : Option Bytes → Option Bytes → Option Bytes → Option Bytes
settled (some value) listed old = some value
settled none (some value) old = none
settled none none old = old

-- What the store tells of a listed name is what is listed.
abbrev Agrees : List Attribute → Store → Bytes → Type 0
Agrees current store name =
    (value : Bytes) → value_of current name ≡ some value → store name ≡ some value

module _ (name : Bytes) where
  -- The name of a removed item is gone and not listed any more.
  removed-settled :
      (present : Attribute) (current required : List Attribute) (store : Store)
      → AllAfter present.name current
      → AllAfter present.name required
      → settled
          (value_of required name)
          (value_of current name)
          (apply (removed present.name) store name)
        ≡ settled (value_of required name) (value_of (present ∷ current) name) (store name)
  removed-settled present current required store h k =
      elim (Bool-cases (same_bytes name present.name)) [
        | inl e ↦
            let at = same_bytes-eq name present.name e in
            ground (
              arith,
              e,
              value_of-AllAfter name current (subst (λ n. AllAfter n current) (sym at) h),
              value_of-AllAfter name required (subst (λ n. AllAfter n required) (sym at) k),
            )
        | inr e ↦ ground (arith, e)
      ]

  -- The name of an item that is set has its value.
  set-settled :
      (wanted : Attribute) (current required : List Attribute) (store : Store)
      → AllAfter wanted.name current
      → AllAfter wanted.name required
      → settled
          (value_of required name)
          (value_of current name)
          (apply (set wanted.name wanted.value) store name)
        ≡ settled (value_of (wanted ∷ required) name) (value_of current name) (store name)
  set-settled wanted current required store h k = elim (Bool-cases (same_bytes name wanted.name)) [
    | inl e ↦
        let at = same_bytes-eq name wanted.name e in
        ground (
          arith,
          e,
          value_of-AllAfter name current (subst (λ n. AllAfter n current) (sym at) h),
          value_of-AllAfter name required (subst (λ n. AllAfter n required) (sym at) k),
        )
    | inr e ↦ ground (arith, e)
  ]

  removed-Agrees :
      (present : Attribute) (current : List Attribute) (store : Store)
      → AllAfter present.name current
      → Agrees (present ∷ current) store name
      → Agrees current (apply (removed present.name) store) name
  removed-Agrees present current store h agrees value k =
      elim (Bool-cases (same_bytes name present.name)) [
        | inl e ↦
            let at = same_bytes-eq name present.name e in
            ground (
              arith,
              k,
              value_of-AllAfter name current (subst (λ n. AllAfter n current) (sym at) h),
            )
        | inr e ↦ ground (arith, e, k, agrees value)
      ]

  set-Agrees :
      (wanted : Attribute) (current : List Attribute) (store : Store)
      → AllAfter wanted.name current
      → Agrees current store name
      → Agrees current (apply (set wanted.name wanted.value) store) name
  set-Agrees wanted current store h agrees value k =
      elim (Bool-cases (same_bytes name wanted.name)) [
        | inl e ↦
            let at = same_bytes-eq name wanted.name e in
            ground (
              arith,
              k,
              value_of-AllAfter name current (subst (λ n. AllAfter n current) (sym at) h),
            )
        | inr e ↦ ground (arith, e, k, agrees value)
      ]

  -- What the calls have made of the store, if there is fuel for all items.
  abbrev Reached : ℕ → List Attribute → List Attribute → Store → Type 0
  Reached fuel current required store =
      apply_all (merge fuel current required) store name
      ≡ settled (value_of required name) (value_of current name) (store name)

  tail-Agrees :
      (present : Attribute) (current : List Attribute) (store : Store)
      → AllAfter present.name current
      → Agrees (present ∷ current) store name
      → Agrees current store name
  tail-Agrees present current store h agrees value k =
      elim (Bool-cases (same_bytes name present.name)) [
        | inl e ↦
            let at = same_bytes-eq name present.name e in
            ground (
              arith,
              k,
              value_of-AllAfter name current (subst (λ n. AllAfter n current) (sym at) h),
            )
        | inr e ↦ ground (arith, e, k, agrees value)
      ]

  -- Two items of one name, of which the value is set unless it is there.
  both-settled :
      (present wanted : Attribute) (current required : List Attribute) (store : Store)
      (rest : List Change)
      → present.name ≡ wanted.name
      → AllAfter present.name current
      → AllAfter wanted.name required
      → Agrees (present ∷ current) store name
      → (equal : Bool) → (equal ≡ true → present.value ≡ wanted.value)
      → ((store : Store)
          → Agrees current store name
          → apply_all rest store name
            ≡ settled (value_of required name) (value_of current name) (store name))
      → apply_all (set_unless equal wanted rest) store name
        ≡ settled
            (value_of (wanted ∷ required) name)
            (value_of (present ∷ current) name)
            (store name)
  both-settled present wanted current required store rest n h k agrees true values next =
      next store (tail-Agrees present current store h agrees)
      ∙ elim (Bool-cases (same_bytes name present.name)) [
        | inl e ↦
            let at = same_bytes-eq name present.name e in
            ground (
              arith,
              e,
              n,
              values refl,
              agrees present.value,
              value_of-AllAfter name current (subst (λ n. AllAfter n current) (sym at) h),
              value_of-AllAfter name required (subst (λ n. AllAfter n required) (sym (at ∙ n)) k),
            )
        | inr e ↦ ground (arith, e, n)
      ]
  both-settled present wanted current required store rest n h k agrees false values next =
      let after_set = subst (λ m. AllAfter m current) n h in
      next (apply (set wanted.name wanted.value) store)
        (set-Agrees wanted current store after_set (tail-Agrees present current store h agrees))
      ∙ set-settled wanted current required store after_set k
      ∙ elim (Bool-cases (same_bytes name present.name)) [
        | inl e ↦ ground (arith, e, n)
        | inr e ↦ ground (arith, e, n)
      ]

-- One round, if the rest reaches what it is to reach.
round-Reached :
    (name : Bytes) (next : List Attribute → List Attribute → List Change) (present : Attribute)
    (current : List Attribute) (wanted : Attribute) (required : List Attribute) (store : Store)
    (order : Order)
    → compare_names present.name wanted.name ≡ order
    → IsSorted (present ∷ current)
    → IsSorted (wanted ∷ required)
    → Agrees (present ∷ current) store name
    → ((c r : List Attribute) (store : Store)
        → length c + length r < length (present ∷ current) + length (wanted ∷ required)
        → IsSorted c
        → IsSorted r
        → Agrees c store name
        → apply_all (next c r) store name
          ≡ settled (value_of r name) (value_of c name) (store name))
    → apply_all (round next present current wanted required order) store name
      ≡ settled (value_of (wanted ∷ required) name) (value_of (present ∷ current) name) (store name)
round-Reached name next present current wanted required store before e (h, s) (k, t) agrees ih =
    let later : AllAfter present.name (wanted ∷ required) =
      (e, AllAfter-trans present.name wanted.name required e k) in
    ih current (wanted ∷ required) (apply (removed present.name) store) (omega arith) s (k, t)
      (removed-Agrees name present current store h agrees)
    ∙ removed-settled name present current (wanted ∷ required) store h later
round-Reached name next present current wanted required store same e (h, s) (k, t) agrees ih =
    both-settled name present wanted current required store (next current required)
      (compare-same present.name wanted.name e) h k agrees (same_bytes present.value wanted.value)
      (same_bytes-eq present.value wanted.value)
      λ store agrees. ih current required store (omega arith) s t agrees
round-Reached name next present current wanted required store after e (h, s) (k, t) agrees ih =
    let f = compare-after present.name wanted.name e in
    let later : AllAfter wanted.name (present ∷ current) =
      (f, AllAfter-trans wanted.name present.name current f h) in
    ih (present ∷ current) required (apply (set wanted.name wanted.value) store) (omega arith)
      (h, s) t (set-Agrees name wanted (present ∷ current) store later agrees)
    ∙ set-settled name wanted (present ∷ current) required store later k

merge-Reached :
    (name : Bytes) (fuel : ℕ) (current required : List Attribute) (store : Store)
    → IsSorted current
    → IsSorted required
    → length current + length required ≤ fuel
    → Agrees current store name
    → Reached name fuel current required store
unfolding merge
merge-Reached name zero [] [] store s t n agrees = refl
merge-Reached name zero [] (wanted ∷ required) store s t n agrees = absurd (omega arith)
merge-Reached name zero (present ∷ current) required store s t n agrees = absurd (omega arith)
merge-Reached name (suc fuel) [] [] store s t n agrees = refl
merge-Reached name (suc fuel) [] (wanted ∷ required) store s (h, t) n agrees =
    merge-Reached name fuel [] required (apply (set wanted.name wanted.value) store) s t
      (omega arith) (set-Agrees name wanted [] store tt agrees)
    ∙ set-settled name wanted [] required store tt h
merge-Reached name (suc fuel) (present ∷ current) [] store (h, s) t n agrees =
    merge-Reached name fuel current [] (apply (removed present.name) store) s t (omega arith)
      (removed-Agrees name present current store h agrees)
    ∙ removed-settled name present current [] store h tt
merge-Reached name (suc fuel) (present ∷ current) (wanted ∷ required) store s t n agrees =
    round-Reached name (λ c r. merge fuel c r) present current wanted required store
      (compare_names present.name wanted.name) refl s t agrees
      λ c r store less s t agrees. merge-Reached name fuel c r store s t (omega arith) agrees

settled_same : (required current : Option Bytes) → settled required current current ≡ required
settled_same (some value) current = refl
settled_same none (some value) = refl
settled_same none none = refl

-- The calls of the merge of two sets that are sorted without a name twice, if none of them fails,
-- give a file that has the first set exactly the second: each name has the value that is required,
-- and a name that is not required is gone.
pub merge-value_of :
    (current required : List Attribute) (name : Bytes)
    → IsSorted current
    → IsSorted required
    → apply_all (merge (length current + length required) current required) (value_of current) name
      ≡ value_of required name
merge-value_of current required name s t =
    merge-Reached name _ current required (value_of current) s t (omega arith) (λ value h. h)
    ∙ settled_same (value_of required name) (value_of current name)
