-- ===== src/Direct/Replace/Examples.antt =====
-- A replacement in a directory that nobody else touches, and the theorem on it.
use yaca.Base.{ℕ, true, false, Option, none, some, [], ◌==◌, ◌≡◌, refl, Bytes, codes, if◌then◌else◌}
use yaca.Base.Int.{pos}
use yaca.Base.Result.{Result, ok, err}
use yaca.Hash.Compress.{compress}
use yaca.Metadata.{same_bytes}
use yaca.Metadata.Xattrs.{Calls, Memory}
use yaca.Process.Request.{Entries, entry, no_entry, string, integer, field}
use yaca.Paths.{split, posix_parent_and_name}
use yaca.Direct.Directories.{Directories, replay, is_at}
use yaca.Direct.Rules.{changes}
use yaca.Direct.Effects.{replay-l_fs_replace_verified}
use yaca.Direct.Facts.{Stat, Identity, regular_type, directory_type}
use yaca.Direct.System.{tried, directory_of, System, Expected}
use yaca.Direct.Evidence.{Occurs}
use yaca.Direct.Replace.{Replacing, ReplaceRequest, l_fs_replace_verified}

-- The two names of the directory; object 8 is open as descriptor 4, object 9 as 5.
record Disk : Type 0 where
  new_object : Option ℕ
  old_object : Option ℕ

abbrev stat_of : ℕ → ℕ → Stat
stat_of file_type inode = record {
  device = 1;
  inode = inode;
  file_type = file_type;
  permissions = 0;
  links = 1;
  uid = 0;
  gid = 0;
  size = pos 5;
  modified_seconds = pos 7;
  modified_nanoseconds = pos 0;
  changed_seconds = pos 7;
  changed_nanoseconds = pos 0;
}

abbrev found : Option ℕ → Result ℕ Stat
found none = err 2
found (some inode) = ok (stat_of regular_type inode)

abbrev stat_open : ℕ → Result ℕ Stat
stat_open d =
    if d == 3
    then ok (stat_of directory_type 100)
    else ok (stat_of regular_type (if d == 4 then 8 else 9))

abbrev new_name : Bytes
new_name = codes "n"

abbrev at_name : Bytes → Disk → Option ℕ
at_name name disk = if same_bytes name new_name then disk.new_object else disk.old_object

abbrev quiet : System Disk
quiet = record {
  open_directory = λ path disk. (ok 3, disk);
  open_entry = λ p name disk. (err 2, disk);
  fstat = λ d disk. (stat_open d, disk);
  fstatat = λ p name disk. (found (at_name name disk), disk);
  rename_no_replace = λ p n q m disk. (some 22, disk);
  unlink = λ p n directory disk. (none, record disk { new_object = none });
  fsync = λ d disk. (none, disk);
  close = λ d disk. disk;
}

-- No attributes and no flags.
abbrev plain : Calls Disk
plain = record {
  list_size = λ d disk. (ok 0, disk);
  list_names = λ d size disk. (ok [], disk);
  value_size = λ d name disk. (err 61, disk);
  get_value = λ d name size disk. (err 61, disk);
  set_value = λ d name value disk. (none, disk);
  remove = λ d name disk. (none, disk);
  get_flags = λ d disk. (ok 0, disk);
}

abbrev replacing : Replacing Disk
replacing = record {
  system = quiet;
  open_candidate = λ p name disk. (ok 4, disk);
  open_target = λ p name disk. (ok 5, disk);
  exchange = λ p n m disk.
      (none, record disk { new_object = disk.old_object; old_object = disk.new_object });
  chown = λ d uid gid disk. (none, disk);
  chmod = λ d mode disk. (none, disk);
  xattrs = plain;
}

abbrev expected_fields : Bytes → Bytes → Entries
expected_fields kind object = entry (string (codes "kind")) (string kind) (
    entry (string (codes "volume")) (string (codes "1")) (
      entry (string (codes "object")) (string object) (
        entry (string (codes "size")) (integer (pos 5))
          (entry (string (codes "modified")) (string (codes "7:000000000:7:000000000")) no_entry))))

abbrev expects : Bytes → Bytes → Expected
unfolding field
expects kind object = record {
  raises = false;
  get = λ name. field name (expected_fields kind object);
}

abbrev ample : Memory
ample = record { names = true; items = true; copy = λ i. true; value = λ i. true }

abbrev request : ReplaceRequest
unfolding expects
request = record {
  temporary_path = codes "/d/n";
  target_path = codes "/d/o";
  temporary = expects (codes "file") (codes "8");
  target = expects (codes "file") (codes "9");
  target_parent = expects (codes "directory") (codes "100");
  expected_behavior =
      codes "posix-v2-1488ce6711c94b535f5d3fc9f9d6c73659ba0062a37c4d8c71887ac1205e8264";
  temporary_memory = true;
  target_memory = true;
  memory = λ i. ample;
}

abbrev disk : Disk
disk = record { new_object = some 8; old_object = some 9 }

replace_run :
    (l_fs_replace_verified replacing request disk).1.world
    ≡ record { new_object = none; old_object = some 8 }
unfolding l_fs_replace_verified request compress
replace_run = refl

abbrev identity : Identity
identity = record {
  kind = codes "file";
  volume = codes "1";
  object = codes "8";
  modified = codes "7:000000000:7:000000000";
  size = 5;
}

replaced : (l_fs_replace_verified replacing request disk).0 ≡ ok identity
unfolding l_fs_replace_verified compress request
replaced = refl

abbrev directories : Directories
directories x y = if same_bytes y new_name then some 8 else some 9

abbrev afterwards : Directories
afterwards x y =
    if is_at 3 new_name x y
    then none
    else if is_at 3 new_name x y
    then directories 3 (codes "o")
    else if is_at 3 (codes "o") x y
    then directories 3 new_name
    else directories x y

replayed :
    replay (λ p. p) (changes (l_fs_replace_verified replacing request disk).1.trace) directories
    ≡ some afterwards
unfolding l_fs_replace_verified compress request
replayed = refl

replay-l_fs_replace_verified_example :
    (temporary : Bytes × Bytes) × (target : Bytes × Bytes) × (p : ℕ) × (posix_parent_and_name true
        (codes "/d/n")
      ≡ split temporary.0 temporary.1)
    × (posix_parent_and_name true (codes "/d/o") ≡ split target.0 target.1)
    × (same_bytes temporary.0 target.0 ≡ true)
    × Occurs
        (tried (directory_of target.0) (ok p))
        (l_fs_replace_verified replacing request disk).1.log
    × ((x : ℕ) (y : Bytes)
        → afterwards x y ≡ (
            if is_at p temporary.1 x y
            then none
            else if is_at p target.1 x y
            then directories p temporary.1
            else directories x y))
unfolding request
replay-l_fs_replace_verified_example =
    replay-l_fs_replace_verified replacing request disk identity (λ p. p) directories afterwards
      replaced replayed
