-- ===== src/Files/Examples.antt =====
-- A file on a quiet system, and the theorems on it.
use yaca.Base.{
  ℕ, ◌+◌, true, false, Option, none, some, List, [], ◌∷◌, ◌++◌, ◌==◌, ◌≡◌, refl, Bytes, codes,
  length, take, ltb, if◌then◌else◌,
}
use yaca.Base.Int.{pos}
use yaca.Base.Result.{Result, ok, err}
use yaca.Process.Request.{Entries, entry, no_entry, string, integer, field}
use yaca.Direct.Facts.{Stat, regular_type, directory_type}
use yaca.Direct.System.{Expected}
use yaca.Files.{Calls, State, file_of, l_fs_write, l_file_gc}
use yaca.Files.Writing.{Written, l_fs_write-Written}
use yaca.Files.Life.{Operation, read, write, close, perform_all}
use yaca.Files.Opening.{l_fs_open_read_verified, l_fs_create_new_verified}
use yaca.Files.Opening.Owned.{Opening, open_read_verified, open_file, opens, closes}
use yaca.Files.Opening.Balance.{l_file_gc-open_file}
use yaca.Files.Opening.Created.{Created, l_fs_create_new_verified-Created}

abbrev stat_of : ℕ → ℕ → Stat
stat_of file_type inode = record {
  device = 1;
  inode = inode;
  file_type = file_type;
  permissions = 0;
  links = 1;
  uid = 0;
  gid = 0;
  size = pos 5;
  modified_seconds = pos 7;
  modified_nanoseconds = pos 0;
  changed_seconds = pos 7;
  changed_nanoseconds = pos 0;
}

abbrev stat_open : Option ℕ → Result ℕ Stat
stat_open none = err 9
stat_open (some d) = ok (if d == 3 then stat_of directory_type 100 else stat_of regular_type 8)

-- At most two bytes are taken at a time; the world is what the file has.
abbrev quiet : Calls Bytes
quiet = record {
  open_read = λ path w. (ok 4, w);
  open_no_follow = λ path w. (ok 4, w);
  open_directory = λ path w. (ok 3, w);
  create_new = λ path permissions w. (ok 5, w);
  create_at = λ parent name permissions w. (ok 5, w);
  read = λ d n w. (ok (take n w), w);
  seek = λ d n w. (ok n, w);
  write = λ d bytes w. (ok (if ltb 2 (length bytes) then 2 else length bytes), w ++ take 2 bytes);
  fsync = λ d w. (none, w);
  fstat = λ d w. (stat_open d, w);
  close = λ d w. w;
  errno = λ w. 0;
}

abbrev start : State Bytes
start = record { world = []; trace = [] }

write_run : (l_fs_write quiet (file_of 5) (codes "yaca!") start).1.world ≡ codes "yaca!"
unfolding l_fs_write
write_run = refl

l_fs_write-Written_example :
    let ended = l_fs_write quiet (file_of 5) (codes "yaca!") start in
    Written (codes "yaca!") [] ended.0 ended.1.trace
l_fs_write-Written_example = l_fs_write-Written quiet 5 (codes "yaca!") start

abbrev operations : List Operation
operations = write (codes "yaca!") ∷ close ∷ read (pos 3) ∷ []

abbrev expected_fields : Bytes → Bytes → Entries
expected_fields kind object = entry (string (codes "kind")) (string kind) (
    entry (string (codes "volume")) (string (codes "1")) (
      entry (string (codes "object")) (string object) (
        entry (string (codes "size")) (integer (pos 5))
          (entry (string (codes "modified")) (string (codes "7:000000000:7:000000000")) no_entry))))

abbrev expects : Bytes → Bytes → Expected
unfolding field
expects kind object = record {
  raises = false;
  get = λ name. field name (expected_fields kind object);
}

abbrev file : Expected
unfolding expects
file = expects (codes "file") (codes "8")

abbrev folder : Expected
unfolding expects
folder = expects (codes "directory") (codes "100")

opened_run : (l_fs_open_read_verified quiet (codes "/a") file start).0 ≡ ok (file_of 4)
unfolding l_fs_open_read_verified file
opened_run = refl

created_run :
    (l_fs_create_new_verified quiet true (codes "/a") folder (pos 384) start).0 ≡ ok (file_of 5)
unfolding l_fs_create_new_verified folder
created_run = refl

l_fs_create_new_verified-Created_example :
    Created quiet true (codes "/a") folder (pos 384) [] (file_of 5)
l_fs_create_new_verified-Created_example =
    l_fs_create_new_verified-Created quiet true (codes "/a") folder (pos 384) start (file_of 5)
      created_run

abbrev opening : Opening
unfolding file
opening = open_read_verified (codes "/a") file

opening_run : (open_file quiet opening start).0 ≡ ok (file_of 4)
unfolding open_file opening
opening_run = refl

l_file_gc-open_file_example :
    let called = perform_all quiet operations (file_of 4) (open_file quiet opening start).1 in
    let e = l_file_gc quiet called.0 called.1 in
    opens (λ d. d) e.1.trace + 0 ≡ closes (λ d. d) e.1.trace + 0
l_file_gc-open_file_example =
    l_file_gc-open_file (λ d. d) quiet opening start (file_of 4) operations opening_run
