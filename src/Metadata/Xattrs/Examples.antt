-- ===== src/Metadata/Xattrs/Examples.antt =====
-- A merge that keeps one attribute, changes one, removes one and adds one; and the reading of a list
-- of names.
use yaca.Base.{ℕ, List, [], ◌∷◌, ◌++◌, length, ◌+◌, ◌≡◌, refl, codes}
use yaca.Metadata.{Attribute}
use yaca.Metadata.Xattrs.{parse_names, sort_names, proven, error, compare_names}
use yaca.Metadata.Xattrs.Merge.{merge, removed, set, apply_all, value_of, IsSorted}
use yaca.Metadata.Xattrs.Merge.Proof.{merge-value_of}

abbrev attribute : ℕ → ℕ → Attribute
attribute name value = record { name = name ∷ []; value = value ∷ [] }

abbrev current : List Attribute
current = attribute 97 1 ∷ attribute 98 2 ∷ attribute 99 3 ∷ []

abbrev required : List Attribute
required = attribute 97 1 ∷ attribute 99 4 ∷ attribute 100 5 ∷ []

merge_run :
    merge 6 current required
    ≡ removed (98 ∷ []) ∷ set (99 ∷ []) (4 ∷ []) ∷ set (100 ∷ []) (5 ∷ []) ∷ []
unfolding merge
merge_run = refl

names_run :
    parse_names (codes "b" ++ (0 ∷ codes "a") ++ (0 ∷ [])) [] [] 0
    ≡ proven (codes "b" ∷ codes "a" ∷ [], 4)
unfolding parse_names
names_run = refl

cut_names : parse_names (codes "b" ++ (0 ∷ codes "a")) [] [] 0 ≡ error
unfolding parse_names
cut_names = refl

sort_run : sort_names (codes "b" ∷ codes "a" ∷ []) ≡ codes "a" ∷ codes "b" ∷ []
unfolding sort_names
sort_run = refl

current-IsSorted : IsSorted current
unfolding compare_names
current-IsSorted = ((refl, (refl, tt)), ((refl, tt), (tt, tt)))

required-IsSorted : IsSorted required
unfolding compare_names
required-IsSorted = ((refl, (refl, tt)), ((refl, tt), (tt, tt)))

merge-value_of_example :
    apply_all
      (merge (length current + length required) current required)
      (value_of current)
      (98 ∷ [])
    ≡ value_of required (98 ∷ [])
merge-value_of_example =
    merge-value_of current required (98 ∷ []) current-IsSorted required-IsSorted
