-- ===== src/Direct/Effects.antt =====
-- What the three operations do to directories, if nobody else changes them.
use yaca.Base.{
  ℕ, true, Option, none, some, List, [], ◌∷◌, ◌≡◌, ◌⊎◌, inl, inr, refl, sym, ap, subst, ◌∙◌, arith,
  Bytes, Bool-cases, if◌then◌else◌,
}
use yaca.Base.Result.{Result, ok, err}
use yaca.Paths.{split, posix_parent_and_name}
use yaca.Direct.Facts.{Identity}
use yaca.Metadata.{same_bytes}
use yaca.Direct.Evidence.{Occurs, Proven, earlier-Occurs}
use yaca.Direct.Rename.Evidence.{Moved, l_fs_rename_no_replace_verified-Proven}
use yaca.Direct.Delete.Evidence.{Removed, l_fs_delete_direct_verified-Proven}
use yaca.Direct.Replace.Evidence.{Swapped, l_fs_replace_verified-Proven}
use yaca.Direct.System.{
  Event, tried, directory_of, System, State, Failure, unknown, Deed, exchanged, unlinked,
}
use yaca.Direct.Rules.{Undone, changes}
use yaca.Direct.Rules.Closing.{Promised}
use yaca.Direct.Directories.{
  Directories, replay, is_at, move, at_entry, move-moved_entry, none_is_not_some, and_perform,
  replay-Undone, is_at-eq,
}
use yaca.Direct.Rename.{RenameRequest, l_fs_rename_no_replace_verified}
use yaca.Direct.Delete.{DeleteRequest, l_fs_delete_direct_verified}
use yaca.Direct.Replace.{Replacing, ReplaceRequest, l_fs_replace_verified}

abbrev pub weightless : ℕ → ℕ
weightless d = 0

Proven-ok :
    {W A : Type 0}
    → (Q : A → List Event → List Deed → Type 0) (ended : Result Failure A × State W) (a : A)
    → Proven weightless Q ended
    → ended.0 ≡ ok a
    → Q a ended.1.log (changes ended.1.trace)
Proven-ok Q (ok b, s) a h e = grind (arith, h.1, e)
Proven-ok Q (err f, s) a h e = grind (arith, e)

module _ {W A : Type 0} (Q : A → List Deed → Type 0) where
  Promised-err :
      (ended : Result Failure A × State W) (f : Failure)
      → Promised weightless Q ended
      → ended.0 ≡ err f
      → (f ≡ unknown) ⊎ Undone (changes ended.1.trace)
  Promised-err (ok b, s) f h e = grind (arith, e)
  Promised-err (err g, s) f h e = grind (arith, h.1, e)

replaced_entry :
    (folder : ℕ → ℕ) (f : ℕ) (t g : Bytes) (d e : Directories) (x : ℕ) (y : Bytes)
    → replay folder (unlinked f t ∷ exchanged f t g ∷ []) d ≡ some e
    → let p = folder f in
      e x y ≡ (if is_at p t x y then none else if is_at p g x y then d p t else d x y)
replaced_entry folder f t g d e x y h =
    sym (ap (at_entry x y) h) ∙ elim (Bool-cases (is_at (folder f) t x y)) [
      | inl a ↦ ground (arith, a)
      | inr a ↦ ground (arith, a)
    ]

deleted_entry :
    (folder : ℕ → ℕ) (f : ℕ) (n m : Bytes) (d e : Directories) (target : Option ℕ) (x : ℕ)
    (y : Bytes)
    → d (folder f) m ≡ target
    → and_perform folder (unlinked f m) (move (folder f) n (folder f) m d target) ≡ some e
    → e x y ≡ (if is_at (folder f) n x y then none else d x y)
deleted_entry folder f n m d e (some object) x y t h = absurd (none_is_not_some h)
deleted_entry folder f n m d e none x y t h =
    sym (ap (at_entry x y) h) ∙ elim (Bool-cases (is_at (folder f) m x y)) [
      | inl a ↦ let (k, l) = is_at-eq (folder f) m x y a in ground (arith, a, k, l, t)
      | inr a ↦ ground (arith, a)
    ]

-- A replacement that returns an identity, if nobody else changes directories: in the directory that
-- it opened for the paths, which are in one, the name of the target now stands for what the
-- candidate's name stood for, the candidate's name is gone, and every other entry of every directory
-- is as it was. (If both names are one, its entry is gone.)
pub replay-l_fs_replace_verified :
    {W : Type 0}
    → (sys : Replacing W) (r : ReplaceRequest) (world : W) (identity : Identity) (folder : ℕ → ℕ)
      (d e : Directories)
    → (l_fs_replace_verified sys r world).0 ≡ ok identity
    → replay folder (changes (l_fs_replace_verified sys r world).1.trace) d ≡ some e
    → (temporary : Bytes × Bytes) × (target : Bytes × Bytes) × (p : ℕ) × (posix_parent_and_name
          r.temporary_memory r.temporary_path
        ≡ split temporary.0 temporary.1)
      × (posix_parent_and_name r.target_memory r.target_path ≡ split target.0 target.1)
      × (same_bytes temporary.0 target.0 ≡ true)
      × Occurs (tried (directory_of target.0) (ok p)) (l_fs_replace_verified sys r world).1.log
      × ((x : ℕ) (y : Bytes)
          → e x y ≡ (
              if is_at (folder p) temporary.1 x y
              then none
              else if is_at (folder p) target.1 x y
              then d (folder p) temporary.1
              else d x y))
replay-l_fs_replace_verified sys r world identity folder d e h k =
    let done =
      Proven-ok (Swapped r) (l_fs_replace_verified sys r world) identity
        (l_fs_replace_verified-Proven weightless sys r world) h in
    (
      done.temporary,
      done.target,
      done.parent,
      done.temporary_named,
      done.target_named,
      done.one_directory,
      earlier-Occurs _ _ _ done.removal (earlier-Occurs _ _ _ done.exchange done.opened),
      λ x y.
          replaced_entry folder done.parent done.temporary.1 done.target.1 d e x y
            (subst (λ list. replay folder list d ≡ some e) done.both k),
    )

-- A deletion that succeeds, if nobody else changes directories: the entry of the path is gone from
-- the directory that was opened for its parent, and every other entry of every directory is as it
-- was.
pub replay-l_fs_delete_direct_verified :
    {W : Type 0}
    → (sys : System W) (r : DeleteRequest) (world : W) (folder : ℕ → ℕ) (d e : Directories)
    → (l_fs_delete_direct_verified sys r world).0 ≡ ok true
    → replay folder (changes (l_fs_delete_direct_verified sys r world).1.trace) d ≡ some e
    → (path : Bytes × Bytes) × (p : ℕ) × (posix_parent_and_name r.path_memory r.path
        ≡ split path.0 path.1)
      × Occurs (tried (directory_of path.0) (ok p)) (l_fs_delete_direct_verified sys r world).1.log
      × ((x : ℕ) (y : Bytes) → e x y ≡ (if is_at (folder p) path.1 x y then none else d x y))
replay-l_fs_delete_direct_verified sys r world folder d e h k =
    let done =
      Proven-ok (λ a. Removed r) (l_fs_delete_direct_verified sys r world) true
        (l_fs_delete_direct_verified-Proven weightless sys r world) h in
    (
      done.path,
      done.parent,
      done.named,
      earlier-Occurs _ _ _ done.removal (earlier-Occurs _ _ _ done.isolation done.opened),
      λ x y.
          deleted_entry folder done.parent done.path.1 done.recovery_name d e
            (d (folder done.parent) done.recovery_name) x y refl
            (subst (λ list. replay folder list d ≡ some e) done.both k),
    )

-- A rename that returns an identity, if nobody else changes directories: in the directory that was
-- opened for the target's parent, the target's name now stands for what the source's name stood for
-- in the one opened for the source's parent, the source's name is gone from there, and every other
-- entry of every directory is as it was.
pub replay-l_fs_rename_no_replace_verified :
    {W : Type 0}
    → (sys : System W) (r : RenameRequest) (world : W) (identity : Identity) (folder : ℕ → ℕ)
      (d e : Directories)
    → (l_fs_rename_no_replace_verified sys r world).0 ≡ ok identity
    → replay folder (changes (l_fs_rename_no_replace_verified sys r world).1.trace) d ≡ some e
    → (source : Bytes × Bytes) × (target : Bytes × Bytes) × (p : ℕ) × (q : ℕ)
      × (posix_parent_and_name r.source_memory r.source_path ≡ split source.0 source.1)
      × (posix_parent_and_name r.target_memory r.target_path ≡ split target.0 target.1)
      × Occurs
          (tried (directory_of source.0) (ok p))
          (l_fs_rename_no_replace_verified sys r world).1.log
      × Occurs
          (tried (directory_of target.0) (ok q))
          (l_fs_rename_no_replace_verified sys r world).1.log
      × ((x : ℕ) (y : Bytes)
          → e x y ≡ (
              if is_at (folder q) target.1 x y
              then d (folder p) source.1
              else if is_at (folder p) source.1 x y
              then none
              else d x y))
replay-l_fs_rename_no_replace_verified sys r world identity folder d e h k =
    let done =
      Proven-ok (Moved r) (l_fs_rename_no_replace_verified sys r world) identity
        (l_fs_rename_no_replace_verified-Proven weightless sys r world) h in
    let p = done.source_parent in
    let q = done.target_parent in
    (
      done.source,
      done.target,
      p,
      q,
      done.source_named,
      done.target_named,
      earlier-Occurs _ _ _ done.cut done.source_opened,
      earlier-Occurs _ _ _ done.cut done.target_opened,
      λ x y.
          move-moved_entry (folder p) done.source.1 (folder q) done.target.1 d e
            (d (folder q) done.target.1) x y
            (subst (λ list. replay folder list d ≡ some e) done.once k),
    )

pub failure_replay :
    {W A : Type 0}
    → (Q : A → List Deed → Type 0) (ended : Result Failure A × State W) (f : Failure)
      (folder : ℕ → ℕ) (d e : Directories) (x : ℕ) (y : Bytes)
    → Promised weightless Q ended
    → ended.0 ≡ err f
    → ¬ (f ≡ unknown)
    → replay folder (changes ended.1.trace) d ≡ some e
    → e x y ≡ d x y
failure_replay Q ended f folder d e x y promised h known k =
    elim (Promised-err Q ended f promised h) [
      | inl u ↦ absurd (known u)
      | inr u ↦ replay-Undone folder (changes ended.1.trace) d e x y u k
    ]
