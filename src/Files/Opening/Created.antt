-- ===== src/Files/Opening/Created.antt =====
-- What a verified creation has seen and done.
use yaca.Base.{
  ℕ, ◌≤◌, Bool, Option, none, some, ◌≡◌, refl, subst, arith, Bytes, ltb, Bool-cases, inl, inr,
}
use yaca.Base.Int.{ℤ, pos, negsuc}
use yaca.Base.Result.{Result, ok, err}
use yaca.Process.State.{errno_code}
use yaca.Paths.{
  SplitResult, split, refused_entry, refused_basename, no_memory, posix_parent_and_name,
}
use yaca.Direct.Facts.{Stat}
use yaca.Direct.System.{Expected}
use yaca.Direct.Rules.Calls.{Matches}
use yaca.Files.{
  Calls, Failure, Deed, File, State, file_of, checked_byte_string, admitted_permissions,
}
use yaca.Files.Opening.{
  file_opened, match_failure, create_child, create_below, create_split, create_verified,
  l_fs_create_new_verified,
}
use yaca.Files.Opening.Verified.{match_failure-Matches, admitted_if}

module _ {W : Type 0} (sys : Calls W) where
  -- The file was created under the name in the directory, which is what the caller expects.
  pub record Placed (expected : Expected) (parent name : Bytes) (permissions : ℕ) (world : W)
      (file : File) : Type 0 where
    pub folder : ℕ
    pub descriptor : ℕ
    pub found : Stat
    pub opened : (sys.open_directory parent world).0 ≡ ok folder
    pub seen : (sys.fstat (some folder) (sys.open_directory parent world).1).0 ≡ ok found
    pub matched : Matches expected found
    pub created :
        (sys.create_at folder name permissions
          (sys.fstat (some folder) (sys.open_directory parent world).1).1).0
        ≡ ok descriptor
    pub given : file ≡ file_of descriptor

  file_opened-ok :
      (deed : ℕ → Deed) (answer : Result ℕ ℕ) (s : State W) (file : File)
      → (file_opened sys deed answer s).0 ≡ ok file
      → (d : ℕ) × (answer ≡ ok d) × (file ≡ file_of d)
  unfolding errno_code
  file_opened-ok deed (err error) s file h = grind (arith, h)
  file_opened-ok deed (ok d) s file h = (d, refl, grind (arith, h))

  create_child-none :
      (parent : ℕ) (name : Bytes) (permissions : ℕ) (failure : Option Failure) (s : State W)
      (file : File)
      → (create_child sys parent name permissions failure s).0 ≡ ok file
      → (failure ≡ none)
        × ((d : ℕ) × ((sys.create_at parent name permissions s.world).0 ≡ ok d)
            × (file ≡ file_of d))
  create_child-none parent name permissions (some failure) s file h = grind (arith, h)
  create_child-none parent name permissions none s file h =
      (refl, file_opened-ok _ (sys.create_at parent name permissions s.world).0 _ file h)

  create_below-Placed :
      (expected : Expected) (parent name : Bytes) (permissions : ℕ) (answer : Result ℕ ℕ)
      (world : W) (s : State W) (file : File)
      → (sys.open_directory parent world).0 ≡ answer
      → s.world ≡ (sys.open_directory parent world).1
      → (create_below sys expected name permissions answer s).0 ≡ ok file
      → Placed expected parent name permissions world file
  unfolding errno_code
  create_below-Placed expected parent name permissions (err error) world s file e f h =
      grind (arith, h)
  create_below-Placed expected parent name permissions (ok folder) world s file e f h =
      let (none_failed, (d, made, same)) =
        create_child-none folder name permissions
          (match_failure sys expected (sys.fstat (some folder) s.world).0) _ file h in
      let (found, seen, matched) = match_failure-Matches sys expected _ none_failed in
      record {
        folder = folder;
        descriptor = d;
        found = found;
        opened = e;
        seen = subst (λ v. (sys.fstat (some folder) v).0 ≡ ok found) f seen;
        matched = matched;
        created =
            subst
              (λ v. (sys.create_at folder name permissions (sys.fstat (some folder) v).1).0 ≡ ok d)
              f made;
        given = same;
      }

  -- A creation that gives a file.
  pub record Created (memory : Bool) (path : Bytes) (expected : Expected) (permissions : ℤ)
      (world : W) (file : File) : Type 0 where
    pub parent : Bytes
    pub name : Bytes
    pub mode : ℕ
    pub named : posix_parent_and_name memory path ≡ split parent name
    pub asked : permissions ≡ pos mode
    pub bounded : mode ≤ 511
    pub placed : Placed expected parent name mode world file

  create_split-Placed :
      (expected : Expected) (permissions : ℕ) (r : SplitResult) (s : State W) (file : File)
      → (create_split sys expected permissions r s).0 ≡ ok file
      → (parent : Bytes) × (name : Bytes) × (r ≡ split parent name)
        × Placed expected parent name permissions s.world file
  create_split-Placed expected permissions refused_entry s file h = grind (arith, h)
  create_split-Placed expected permissions refused_basename s file h = grind (arith, h)
  create_split-Placed expected permissions no_memory s file h = grind (arith, h)
  create_split-Placed expected permissions (split parent name) s file h = (
    parent,
    name,
    refl,
    create_below-Placed expected parent name permissions (sys.open_directory parent s.world).0
        s.world _ file refl refl h,
  )

  admitted-bounded :
      (permissions : ℤ) (n : ℕ)
      → admitted_permissions permissions ≡ some n
      → (permissions ≡ pos n) × (n ≤ 511)
  unfolding admitted_permissions
  admitted-bounded (negsuc m) n h = grind (arith, h)
  admitted-bounded (pos m) n h = elim (Bool-cases (ltb 511 m)) [
    | inl e ↦ absurd (ground (arith, e, h))
    | inr e ↦ (ground (arith, e, h), ground (arith, e, h))
  ]

  create_verified-Created :
      (expected : Expected) (permissions : ℤ) (admitted : Option ℕ) (memory : Bool) (path : Bytes)
      (s : State W) (file : File)
      → admitted_permissions permissions ≡ admitted
      → (create_verified sys expected admitted memory path s).0 ≡ ok file
      → Created memory path expected permissions s.world file
  create_verified-Created expected permissions none memory path s file e h = grind (arith, h)
  create_verified-Created expected permissions (some n) memory path s file e h =
      let (parent, name, named, placed) =
        create_split-Placed expected n (posix_parent_and_name memory path) s file h in
      let (asked, bounded) = admitted-bounded permissions n e in
      record {
        parent = parent;
        name = name;
        mode = n;
        named = named;
        asked = asked;
        bounded = bounded;
        placed = placed;
      }

  -- A verified creation that gives a file: the permissions lie between 0 and 0777; the directory
  -- that was opened for the parent of the path has the identity that the caller expects; and the
  -- file is the one that was then created in this directory, under the path's last name and with
  -- these permissions.
  pub l_fs_create_new_verified-Created :
      (memory : Bool) (path : Bytes) (expected : Expected) (permissions : ℤ) (s : State W)
      (file : File)
      → (l_fs_create_new_verified sys memory path expected permissions s).0 ≡ ok file
      → Created memory path expected permissions s.world file
  unfolding l_fs_create_new_verified
  l_fs_create_new_verified-Created memory path expected permissions s file h =
      let (a, k) = admitted_if sys (checked_byte_string path) _ s _ file h in
      create_verified-Created expected permissions (admitted_permissions permissions) memory path s
        file refl k
