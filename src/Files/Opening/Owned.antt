-- ===== src/Files/Opening/Owned.antt =====
-- Who holds the descriptors behind an opening, and behind the life of the file.
use yaca.Base.{
  ℕ, suc, ◌+◌, Bool, true, false, Option, none, some, List, [], ◌∷◌, ◌≡◌, refl, ap, arith, Bytes,
  if◌then◌else◌,
}
use yaca.Base.Int.{ℤ}
use yaca.Base.Result.{Result, ok, err}
use yaca.Process.State.{errno_code}
use yaca.Paths.{
  SplitResult, split, refused_entry, refused_basename, no_memory, posix_parent_and_name,
}
use yaca.Direct.System.{Expected}
use yaca.Files.{
  Calls, Failure, Deed, opened, created, closed, looked, read_some, moved, flushed, wrote, File,
  State, file_of, l_file_gc, checked_byte_string, admitted_permissions,
}
use yaca.Files.Opening.{
  is_absolute, file_opened, create_admitted, kept_or_closed, verify_opened, create_child,
  create_below, create_split, create_verified, match_failure, file_failure, l_fs_open_read,
  l_fs_create_new, l_fs_open_read_verified, l_fs_create_new_verified,
}

-- The functions that open a file, with their arguments.
pub data Opening : Type 0 where
  open_read : Bytes → Opening
  create_new : Bytes → ℤ → Opening
  open_read_verified : Bytes → Expected → Opening
  create_new_verified : Bool → Bytes → Expected → ℤ → Opening

unfoldable pub open_file :
    {W : Type 0} → Calls W → Opening → State W → Result Failure File × State W
unfolding l_fs_open_read l_fs_create_new l_fs_open_read_verified l_fs_create_new_verified
open_file sys (open_read path) s = l_fs_open_read sys path s
open_file sys (create_new path permissions) s = l_fs_create_new sys path permissions s
open_file sys (open_read_verified path expected) s = l_fs_open_read_verified sys path expected s
open_file sys (create_new_verified memory path expected permissions) s =
    l_fs_create_new_verified sys memory path expected permissions s

-- The weight of what was opened or created, and of what was closed.
abbrev pub opens : (ℕ → ℕ) → List Deed → ℕ
opens w [] = 0
opens w (opened d ∷ trace) = w d + opens w trace
opens w (created d ∷ trace) = w d + opens w trace
opens w (deed ∷ trace) = opens w trace

abbrev pub closes : (ℕ → ℕ) → List Deed → ℕ
closes w [] = 0
closes w (closed d ∷ trace) = w d + closes w trace
closes w (deed ∷ trace) = closes w trace

-- How many files were created.
abbrev pub creations : List Deed → ℕ
creations [] = 0
creations (created d ∷ trace) = suc (creations trace)
creations (deed ∷ trace) = creations trace

-- A file that is given holds the one descriptor that is not closed; behind a failure none is left,
-- and no file was created.
abbrev pub Owned : {W : Type 0} → (ℕ → ℕ) → List Deed → Result Failure File × State W → Type 0
Owned w before (ok file, s) =
    (d : ℕ) × (file ≡ file_of d)
    × (opens w s.trace + closes w before ≡ closes w s.trace + (w d + opens w before))
Owned w before (err failure, s) =
    (opens w s.trace + closes w before ≡ closes w s.trace + opens w before)
    × (creations s.trace ≡ creations before)

module _ (w : ℕ → ℕ) {W : Type 0} (sys : Calls W) where
  opened-Owned :
      (answer : Result ℕ ℕ) (s : State W)
      → Owned w s.trace (file_opened sys (λ d. opened d) answer s)
  unfolding errno_code
  opened-Owned (err error) s = (omega arith, refl)
  opened-Owned (ok d) s = (d, refl, omega arith)

  created-Owned :
      (answer : Result ℕ ℕ) (s : State W)
      → Owned w s.trace (file_opened sys (λ d. created d) answer s)
  unfolding errno_code
  created-Owned (err error) s = (omega arith, refl)
  created-Owned (ok d) s = (d, refl, omega arith)

  kept_or_closed-Owned :
      (d : ℕ) (failure : Option Failure) (s : State W) (before : List Deed)
      → s.trace ≡ looked (some d) ∷ opened d ∷ before
      → Owned w before (kept_or_closed sys d failure s)
  kept_or_closed-Owned d none s before e = (d, refl, ground (arith, e))
  kept_or_closed-Owned d (some failure) s before e = (ground (arith, e), ap (λ t. creations t) e)

  verify_opened-Owned :
      (expected : Expected) (answer : Result ℕ ℕ) (s : State W)
      → Owned w s.trace (verify_opened sys expected answer s)
  unfolding errno_code
  verify_opened-Owned expected (err error) s = (omega arith, refl)
  verify_opened-Owned expected (ok d) s =
      kept_or_closed-Owned d (file_failure sys expected (sys.fstat (some d) s.world).0) _ s.trace
        refl

  parent_closed-Owned :
      (parent : ℕ) (answer : Result ℕ ℕ) (s : State W) (before : List Deed)
      → s.trace ≡ looked (some parent) ∷ opened parent ∷ before
      → let ended = file_opened sys (λ d. created d) answer s in
        Owned w before (ended.0, yaca.Files.close_descriptor sys (some parent) ended.1)
  unfolding errno_code
  parent_closed-Owned parent (err error) s before e = (ground (arith, e), ap (λ t. creations t) e)
  parent_closed-Owned parent (ok d) s before e = (d, refl, ground (arith, e))

  create_child-Owned :
      (parent : ℕ) (name : Bytes) (permissions : ℕ) (failure : Option Failure) (s : State W)
      (before : List Deed)
      → s.trace ≡ looked (some parent) ∷ opened parent ∷ before
      → Owned w before (create_child sys parent name permissions failure s)
  create_child-Owned parent name permissions none s before e =
      parent_closed-Owned parent (sys.create_at parent name permissions s.world).0 _ before e
  create_child-Owned parent name permissions (some failure) s before e =
      (ground (arith, e), ap (λ t. creations t) e)

  create_below-Owned :
      (expected : Expected) (name : Bytes) (permissions : ℕ) (answer : Result ℕ ℕ) (s : State W)
      → Owned w s.trace (create_below sys expected name permissions answer s)
  unfolding errno_code
  create_below-Owned expected name permissions (err error) s = (omega arith, refl)
  create_below-Owned expected name permissions (ok parent) s =
      create_child-Owned parent name permissions
        (match_failure sys expected (sys.fstat (some parent) s.world).0) _ s.trace refl

  create_split-Owned :
      (expected : Expected) (permissions : ℕ) (r : SplitResult) (s : State W)
      → Owned w s.trace (create_split sys expected permissions r s)
  create_split-Owned expected permissions refused_entry s = (omega arith, refl)
  create_split-Owned expected permissions refused_basename s = (omega arith, refl)
  create_split-Owned expected permissions no_memory s = (omega arith, refl)
  create_split-Owned expected permissions (split parent name) s =
      create_below-Owned expected name permissions (sys.open_directory parent s.world).0 _

  create_verified-Owned :
      (expected : Expected) (permissions : Option ℕ) (memory : Bool) (path : Bytes) (s : State W)
      → Owned w s.trace (create_verified sys expected permissions memory path s)
  create_verified-Owned expected none memory path s = (omega arith, refl)
  create_verified-Owned expected (some permissions) memory path s =
      create_split-Owned expected permissions (posix_parent_and_name memory path) s

  create_admitted-Owned :
      (permissions : Option ℕ) (path : Bytes) (s : State W)
      → Owned w s.trace (create_admitted sys permissions path s)
  create_admitted-Owned none path s = (omega arith, refl)
  create_admitted-Owned (some permissions) path s =
      created-Owned (sys.create_new path permissions s.world).0 _

  refused_unless :
      (b : Bool) (failure : Failure) (s : State W) (rest : Result Failure File × State W)
      → Owned w s.trace rest
      → Owned w s.trace (if b then rest else (err failure, s))
  refused_unless true failure s rest h = h
  refused_unless false failure s rest h = (omega arith, refl)

  -- The four functions that open a file, whatever the system answers, with any weight for a
  -- descriptor: if a file is given, it is open and holds one descriptor, and the weight of all others
  -- that were opened is that of those closed; if the function fails, so it is for all, and no file
  -- was created.
  pub open_file-Owned :
      (opening : Opening) (s : State W) → Owned w s.trace (open_file sys opening s)
  unfolding open_file
  open_file-Owned (open_read path) s =
      refused_unless (checked_byte_string path) _ s _
        (opened-Owned (sys.open_read path s.world).0 _)
  open_file-Owned (create_new path permissions) s =
      refused_unless (checked_byte_string path) _ s _
        (create_admitted-Owned (admitted_permissions permissions) path s)
  open_file-Owned (open_read_verified path expected) s =
      refused_unless (checked_byte_string path) _ s _ (
        refused_unless (is_absolute path) _ s _
          (verify_opened-Owned expected (sys.open_no_follow path s.world).0 _))
  open_file-Owned (create_new_verified memory path expected permissions) s =
      refused_unless (checked_byte_string path) _ s _
        (create_verified-Owned expected (admitted_permissions permissions) memory path s)
