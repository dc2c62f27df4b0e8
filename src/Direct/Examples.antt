-- ===== src/Direct/Examples.antt =====
-- A directory that nobody else touches, operations on it, and the theorems on them.
use yaca.Base.{
  ℕ, Bool, true, false, Option, none, some, List, [], ◌∷◌, ◌==◌, ◌≡◌, refl, Bytes, codes,
  if◌then◌else◌,
}
use yaca.Base.Int.{pos}
use yaca.Base.Result.{Result, ok, err}
use yaca.Metadata.{same_bytes}
use yaca.Process.Request.{Entries, entry, no_entry, string, integer, field}
use yaca.Paths.{split, posix_parent_and_name}
use yaca.Direct.Directories.{Directories, replay, is_at}
use yaca.Direct.Rules.{changes}
use yaca.Direct.Replace.{Replacing}
use yaca.Direct.Operations.{run, rename, replay-run}
use yaca.Direct.Effects.{replay-l_fs_rename_no_replace_verified, replay-l_fs_delete_direct_verified}
use yaca.Direct.Facts.{Stat, Identity, regular_type, directory_type}
use yaca.Direct.Evidence.{Occurs, Proven}
use yaca.Direct.Rename.Evidence.{Moved, l_fs_rename_no_replace_verified-Proven}
use yaca.Direct.Delete.Evidence.{Removed, l_fs_delete_direct_verified-Proven}
use yaca.Direct.System.{tried, directory_of, destination_exists, System, Expected}
use yaca.Direct.Rename.{RenameRequest, l_fs_rename_no_replace_verified}
use yaca.Direct.Delete.{DeleteRequest, l_fs_delete_direct_verified}

-- The names of the one directory, and the object that is open.
record Disk : Type 0 where
  entries : List (Bytes × ℕ)
  handle : ℕ

abbrev stat_of : ℕ → ℕ → ℕ → Stat
stat_of file_type inode links = record {
  device = 1;
  inode = inode;
  file_type = file_type;
  permissions = 0;
  links = links;
  uid = 0;
  gid = 0;
  size = pos 5;
  modified_seconds = pos 7;
  modified_nanoseconds = pos 0;
  changed_seconds = pos 7;
  changed_nanoseconds = pos 0;
}

abbrev look : List (Bytes × ℕ) → Bytes → Option ℕ
look [] name = none
look ((n, inode) ∷ rest) name = if same_bytes n name then some inode else look rest name

abbrev without : List (Bytes × ℕ) → Bytes → List (Bytes × ℕ)
without [] name = []
without ((n, inode) ∷ rest) name =
    if same_bytes n name then without rest name else (n, inode) ∷ without rest name

abbrev is_named : List (Bytes × ℕ) → ℕ → Bool
is_named [] inode = false
is_named ((n, i) ∷ rest) inode = if i == inode then true else is_named rest inode

abbrev found : Option ℕ → Result ℕ Stat
found none = err 2
found (some inode) = ok (stat_of regular_type inode 1)

abbrev stat_open : ℕ → Disk → Result ℕ Stat
stat_open d disk =
    if d == 3
    then ok (stat_of directory_type 100 1)
    else ok (stat_of regular_type disk.handle (if is_named disk.entries disk.handle then 1 else 0))

abbrev opened_entry : Option ℕ → Disk → Result ℕ ℕ × Disk
opened_entry none disk = (err 2, disk)
opened_entry (some inode) disk = (ok 4, record disk { handle = inode })

abbrev moved : Option ℕ → Option ℕ → Bytes → Bytes → Disk → Option ℕ × Disk
moved none there from to disk = (some 2, disk)
moved (some inode) (some other) from to disk = (some 17, disk)
moved (some inode) none from to disk =
    (none, record disk { entries = (to, inode) ∷ without disk.entries from })

abbrev quiet : System Disk
quiet = record {
  open_directory = λ path disk. (ok 3, disk);
  open_entry = λ p name disk. opened_entry (look disk.entries name) disk;
  fstat = λ d disk. (stat_open d disk, disk);
  fstatat = λ p name disk. (found (look disk.entries name), disk);
  rename_no_replace = λ p n q m disk. moved (look disk.entries n) (look disk.entries m) n m disk;
  unlink = λ p n directory disk. (none, record disk { entries = without disk.entries n });
  fsync = λ d disk. (none, disk);
  close = λ d disk. disk;
}

abbrev expected_fields : Bytes → Bytes → Entries
expected_fields kind object = entry (string (codes "kind")) (string kind) (
    entry (string (codes "volume")) (string (codes "1")) (
      entry (string (codes "object")) (string object) (
        entry (string (codes "size")) (integer (pos 5))
          (entry (string (codes "modified")) (string (codes "7:000000000:7:000000000")) no_entry))))

abbrev expects : Bytes → Bytes → Expected
unfolding field
expects kind object = record {
  raises = false;
  get = λ name. field name (expected_fields kind object);
}

abbrev folder : Expected
unfolding expects
folder = expects (codes "directory") (codes "100")

abbrev file : Expected
unfolding expects
file = expects (codes "file") (codes "8")

abbrev disk : Disk
disk = record { entries = (codes "a", 8) ∷ (codes "b", 9) ∷ []; handle = 0 }

abbrev rename_request : RenameRequest
unfolding folder file
rename_request = record {
  source_path = codes "/d/a";
  target_path = codes "/d/c";
  source = file;
  source_parent = folder;
  target_parent = folder;
  source_memory = true;
  target_memory = true;
}

abbrev delete_request : DeleteRequest
unfolding folder file
delete_request = record {
  path = codes "/d/a";
  target = file;
  parent = folder;
  path_memory = true;
  name_memory = true;
}

rename_run :
    (l_fs_rename_no_replace_verified quiet rename_request disk).1.world.entries
    ≡ (codes "c", 8) ∷ (codes "b", 9) ∷ []
unfolding l_fs_rename_no_replace_verified rename_request
rename_run = refl

delete_run : (l_fs_delete_direct_verified quiet delete_request disk).0 ≡ ok true
unfolding l_fs_delete_direct_verified delete_request
delete_run = refl

deleted_entries :
    (l_fs_delete_direct_verified quiet delete_request disk).1.world.entries ≡ (codes "b", 9) ∷ []
unfolding l_fs_delete_direct_verified delete_request
deleted_entries = refl

l_fs_rename_no_replace_verified-Proven_example :
    Proven
      (λ d. d)
      (Moved rename_request)
      (l_fs_rename_no_replace_verified quiet rename_request disk)
l_fs_rename_no_replace_verified-Proven_example =
    l_fs_rename_no_replace_verified-Proven (λ d. d) quiet rename_request disk

l_fs_delete_direct_verified-Proven_example :
    Proven
      (λ d. d)
      (λ a. Removed delete_request)
      (l_fs_delete_direct_verified quiet delete_request disk)
l_fs_delete_direct_verified-Proven_example =
    l_fs_delete_direct_verified-Proven (λ d. d) quiet delete_request disk

abbrev directories : Directories
directories x y = look disk.entries y

abbrev moved_identity : Identity
moved_identity = record {
  kind = codes "file";
  volume = codes "1";
  object = codes "8";
  modified = codes "7:000000000:7:000000000";
  size = 5;
}

renamed_file : (l_fs_rename_no_replace_verified quiet rename_request disk).0 ≡ ok moved_identity
unfolding l_fs_rename_no_replace_verified rename_request
renamed_file = refl

abbrev after_rename : Directories
after_rename x y =
    if is_at 3 (codes "c") x y
    then some 8
    else if is_at 3 (codes "a") x y
    then none
    else directories x y

replayed_rename :
    replay
      (λ p. p)
      (changes (l_fs_rename_no_replace_verified quiet rename_request disk).1.trace)
      directories
    ≡ some after_rename
unfolding l_fs_rename_no_replace_verified rename_request
replayed_rename = refl

replay-l_fs_rename_no_replace_verified_example :
    (source : Bytes × Bytes) × (target : Bytes × Bytes) × (p : ℕ) × (q : ℕ) × (posix_parent_and_name
        true
        (codes "/d/a")
      ≡ split source.0 source.1)
    × (posix_parent_and_name true (codes "/d/c") ≡ split target.0 target.1)
    × Occurs
        (tried (directory_of source.0) (ok p))
        (l_fs_rename_no_replace_verified quiet rename_request disk).1.log
    × Occurs
        (tried (directory_of target.0) (ok q))
        (l_fs_rename_no_replace_verified quiet rename_request disk).1.log
    × ((x : ℕ) (y : Bytes)
        → after_rename x y ≡ (
            if is_at q target.1 x y
            then directories p source.1
            else if is_at p source.1 x y
            then none
            else directories x y))
unfolding rename_request
replay-l_fs_rename_no_replace_verified_example =
    replay-l_fs_rename_no_replace_verified quiet rename_request disk moved_identity (λ p. p)
      directories after_rename renamed_file replayed_rename

abbrev after_delete : Directories
after_delete x y =
    if is_at 3 (codes "a.yaca-delete") x y
    then none
    else if is_at 3 (codes "a.yaca-delete") x y
    then some 8
    else if is_at 3 (codes "a") x y
    then none
    else directories x y

replayed_delete :
    replay
      (λ p. p)
      (changes (l_fs_delete_direct_verified quiet delete_request disk).1.trace)
      directories
    ≡ some after_delete
unfolding l_fs_delete_direct_verified delete_request
replayed_delete = refl

replay-l_fs_delete_direct_verified_example :
    (path : Bytes × Bytes) × (p : ℕ) × (posix_parent_and_name true (codes "/d/a")
      ≡ split path.0 path.1)
    × Occurs
        (tried (directory_of path.0) (ok p))
        (l_fs_delete_direct_verified quiet delete_request disk).1.log
    × ((x : ℕ) (y : Bytes)
        → after_delete x y ≡ (if is_at p path.1 x y then none else directories x y))
unfolding delete_request
replay-l_fs_delete_direct_verified_example =
    replay-l_fs_delete_direct_verified quiet delete_request disk (λ p. p) directories after_delete
      delete_run replayed_delete

-- The destination is there already.
abbrev occupied_request : RenameRequest
unfolding rename_request
occupied_request = record rename_request { target_path = codes "/d/b" }

refused_run :
    (l_fs_rename_no_replace_verified quiet occupied_request disk).0 ≡ err destination_exists
unfolding l_fs_rename_no_replace_verified rename_request occupied_request
refused_run = refl

-- No replacement is done with these calls.
abbrev calls : Replacing Disk
calls = record {
  system = quiet;
  open_candidate = λ p name disk. (err 2, disk);
  open_target = λ p name disk. (err 2, disk);
  exchange = λ p n m disk. (some 22, disk);
  chown = λ d uid gid disk. (none, disk);
  chmod = λ d mode disk. (none, disk);
  xattrs = record {
    list_size = λ d disk. (ok 0, disk);
    list_names = λ d size disk. (ok [], disk);
    value_size = λ d name disk. (err 61, disk);
    get_value = λ d name size disk. (err 61, disk);
    set_value = λ d name value disk. (none, disk);
    remove = λ d name disk. (none, disk);
    get_flags = λ d disk. (ok 0, disk);
  };
}

refused_operation : (run calls (rename occupied_request) disk).0 ≡ some destination_exists
unfolding run rename_request occupied_request
refused_operation = refl

replayed_refusal :
    replay (λ p. p) (changes (run calls (rename occupied_request) disk).1.trace) directories
    ≡ some directories
unfolding run rename_request occupied_request
replayed_refusal = refl

replay-run_example : directories 3 (codes "a") ≡ directories 3 (codes "a")
replay-run_example =
    replay-run calls (rename occupied_request) disk destination_exists (λ p. p) directories
      directories 3 (codes "a") refused_operation (λ h. cc) replayed_refusal
