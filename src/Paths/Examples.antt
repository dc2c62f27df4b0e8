-- ===== src/Paths/Examples.antt =====
-- The theorems on "/a/b" and on a vector for one path.
use yaca.Base.{true, false, some, [], ◌∷◌, length, ◌==◌, ◌||◌, codes, ◌≡◌, refl, arith}
use yaca.Paths.{
  split, is_dots, posix_parent_and_name, posix_join_path, relative_join, Given, append_path,
}
use yaca.Paths.Join.{has_slash, join-parent_and_name, join-relative_join}
use yaca.Paths.Vector.{
  IsBounded, append_paths, empty_vector, append_path-IsBounded, append_paths-take,
}

path_run : posix_parent_and_name true (codes "/a/b") ≡ split (codes "/a") (codes "b")
unfolding posix_parent_and_name
path_run = refl

join-parent_and_name_example :
    (has_slash (codes "b") ≡ false)
    × (((length (codes "b") == 0) || is_dots (codes "b")) ≡ false)
    × (posix_join_path true (codes "/a") (codes "b") ≡ some (codes "/a/b"))
join-parent_and_name_example =
    join-parent_and_name (codes "/a/b") (codes "/a") (codes "b") path_run (omega arith) refl

relative_run : relative_join true (codes "d") (codes "e") ≡ some (codes "d/e")
unfolding relative_join
relative_run = refl

directory_run : posix_join_path true (codes "/w") (codes "d") ≡ some (codes "/w/d")
unfolding posix_join_path
directory_run = refl

join-relative_join_example :
    posix_join_path true (codes "/w") (codes "d/e")
    ≡ posix_join_path true (codes "/w/d") (codes "e")
join-relative_join_example =
    join-relative_join (codes "/w") (codes "d") (codes "e") (codes "d/e") (codes "/w/d")
      (omega arith) (omega arith) relative_run directory_run

abbrev scarce : Given
scarce = record { realloc = true; strdup = false }

append_path-IsBounded_example :
    IsBounded (append_path scarce (codes "x") (empty_vector 1)).0
    × ((append_path scarce (codes "x") (empty_vector 1)).0.maximum ≡ 1)
append_path-IsBounded_example =
    append_path-IsBounded scarce (codes "x") (empty_vector 1)
      (record { inside = omega arith; capped = omega arith; small = omega arith })

append_paths-take_example :
    ((append_paths (codes "x" ∷ codes "y" ∷ []) (empty_vector 1)).items ≡ codes "x" ∷ [])
    × ((append_paths (codes "x" ∷ codes "y" ∷ []) (empty_vector 1)).truncated ≡ true)
append_paths-take_example = append_paths-take (codes "x" ∷ codes "y" ∷ []) 1 (omega arith)
