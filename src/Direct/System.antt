-- ===== src/Direct/System.antt =====
-- The system's calls as an interface, and actions over it: an action may end with a failure, and
-- the state behind it has the descriptors that it holds and what it has done.
use yaca.Base.{
  ℕ, Bool, true, false, ◌||◌, Option, none, some, List, ◌∷◌, ◌==◌, Bytes, if◌then◌else◌,
}
use yaca.Base.Result.{Result, ok, err}
use yaca.Process.State.{Code, errno_code}
use yaca.Process.Request.{Value}
use yaca.Paths.{SplitResult, split, refused_entry, refused_basename, no_memory}
use yaca.Metadata.Xattrs.{Captured}
use yaca.Direct.Facts.{Stat, Identity, identity_from_stat, identity_matches_lua}

-- The calls; each gives its answer, which is an `errno` where it fails, and the world behind it, in
-- which other processes may have acted too.
pub record System (W : Type 0) : Type 0 where
  pub open_directory : Bytes → W → Result ℕ ℕ × W
  pub open_entry : ℕ → Bytes → W → Result ℕ ℕ × W
  pub fstat : ℕ → W → Result ℕ Stat × W
  pub fstatat : ℕ → Bytes → W → Result ℕ Stat × W
  pub rename_no_replace : ℕ → Bytes → ℕ → Bytes → W → Option ℕ × W
  pub unlink : ℕ → Bytes → Bool → W → Option ℕ × W
  pub fsync : ℕ → W → Option ℕ × W
  pub close : ℕ → W → W

abbrev pub is_none : Option ℕ → Bool
is_none none = true
is_none (some error) = false

-- The codes of the failures, those of `errno_code` as `system`. `raised` is an error of Lua that a
-- getter of the caller raises.
pub data Failure : Type 0 where
  invalid_path storage target_changed destination_exists invalid_target_type : Failure
  unsupported temporary_conflict unknown raised : Failure
  invalid_metadata metadata_preservation_unsupported : Failure
  system : Code → Failure

-- What has been done, the last one first.
pub data Deed : Type 0 where
  opened closed : ℕ → Deed
  renamed : ℕ → Bytes → ℕ → Bytes → Deed
  exchanged : ℕ → Bytes → Bytes → Deed
  unlinked : ℕ → Bytes → Deed

-- What is looked at by `fstat` and by `fstatat`, and what is opened.
pub data Look : Type 0 where
  handle_at : ℕ → Look
  entry_at : ℕ → Bytes → Look

pub data Way : Type 0 where
  directory_of : Bytes → Way
  entry_of : ℕ → Bytes → Way

-- What has been asked of the system, with its answer.
pub data Event : Type 0 where
  tried : Way → Result ℕ ℕ → Event
  saw : Look → Result ℕ Stat → Event
  did : Deed → Option ℕ → Event
  read_metadata : ℕ → Captured yaca.Metadata.State → Event

-- The descriptors of `yaca_posix_validation_context`; `none` is -1.
pub record Slots : Type 0 where
  pub first : Option ℕ
  pub second : Option ℕ
  pub third : Option ℕ

abbrev pub no_slots : Slots
no_slots = record { first = none; second = none; third = none }

-- The log has all that was asked and answered, the trace what it has come to; the last is first.
pub record State (W : Type 0) : Type 0 where
  pub world : W
  pub slots : Slots
  pub trace : List Deed
  pub log : List Event

abbrev pub Action : Type 0 → Type 0 → Type 0
Action W A = State W → Result Failure A × State W

module _ {W : Type 0} where
  unfoldable pub pure : {A : Type 0} → A → Action W A
  pure a s = (ok a, s)

  unfoldable pub fail : {A : Type 0} → Failure → Action W A
  fail e s = (err e, s)

  abbrev pub continue :
      {A B : Type 0} → (A → Action W B) → Result Failure A → State W → Result Failure B × State W
  continue f (ok a) s = f a s
  continue f (err e) s = (err e, s)

  infixl 10 ◌>>=◌ ◌>>◌
  unfoldable pub ◌>>=◌ : {A B : Type 0} → Action W A → (A → Action W B) → Action W B
  m >>= f = λ s. continue f (m s).0 (m s).1

  unfoldable pub ◌>>◌ : {A B : Type 0} → Action W A → Action W B → Action W B
  unfolding ◌>>=◌
  m >> k = m >>= λ a. k

  abbrev pub logged : Event → State W → State W
  logged event s = record s { log = event ∷ s.log }

  abbrev pub look_at : System W → Look → W → Result ℕ Stat × W
  look_at sys (handle_at d) world = sys.fstat d world
  look_at sys (entry_at p n) world = sys.fstatat p n world

  -- A look whose answer is taken, whatever it is.
  unfoldable pub observe : System W → Look → Action W (Result ℕ Stat)
  observe sys what s =
      let answer = look_at sys what s.world in
      (ok answer.0, logged (saw what answer.0) (record s { world = answer.1 }))

  unfoldable pub require : Bool → Failure → Action W Bool
  require true e s = (ok true, s)
  require false e s = (err e, s)

  unfoldable pub or_fail : {A : Type 0} → Failure → Result ℕ A → Action W A
  or_fail e (ok a) s = (ok a, s)
  or_fail e (err error) s = (err e, s)

  abbrev pub keep_first : Result ℕ ℕ → State W → State W
  keep_first (err error) s = s
  keep_first (ok d) s = record s {
    slots = record { first = some d; second = s.slots.second; third = s.slots.third };
    trace = opened d ∷ s.trace;
  }

  abbrev pub keep_second : Result ℕ ℕ → State W → State W
  keep_second (err error) s = s
  keep_second (ok d) s = record s {
    slots = record { first = s.slots.first; second = some d; third = s.slots.third };
    trace = opened d ∷ s.trace;
  }

  abbrev pub keep_third : Result ℕ ℕ → State W → State W
  keep_third (err error) s = s
  keep_third (ok d) s = record s {
    slots = record { first = s.slots.first; second = s.slots.second; third = some d };
    trace = opened d ∷ s.trace;
  }

  -- A call that opens a descriptor for the first slot, the second and the third.
  unfoldable pub open_first : Way → (W → Result ℕ ℕ × W) → Action W (Result ℕ ℕ)
  open_first way call s = (
    ok (call s.world).0,
    logged (tried way (call s.world).0)
        (keep_first (call s.world).0 (record s { world = (call s.world).1 })),
  )

  unfoldable pub open_second : Way → (W → Result ℕ ℕ × W) → Action W (Result ℕ ℕ)
  open_second way call s = (
    ok (call s.world).0,
    logged (tried way (call s.world).0)
        (keep_second (call s.world).0 (record s { world = (call s.world).1 })),
  )

  unfoldable pub open_third : Way → (W → Result ℕ ℕ × W) → Action W (Result ℕ ℕ)
  open_third way call s = (
    ok (call s.world).0,
    logged (tried way (call s.world).0)
        (keep_third (call s.world).0 (record s { world = (call s.world).1 })),
  )

  -- A step that only looks, with any result.
  unfoldable pub look : {A : Type 0} → (A → Event) → (W → A × W) → Action W A
  look event step s =
      (ok (step s.world).0, logged (event (step s.world).0) (record s { world = (step s.world).1 }))

  abbrev pub changed : Option ℕ → Deed → State W → State W
  changed (some error) deed s = s
  changed none deed s = record s { trace = deed ∷ s.trace }

  -- A call that changes a directory; its answer is the `errno` of a failure.
  unfoldable pub change : (W → Option ℕ × W) → Deed → Action W (Option ℕ)
  change call deed s = (
    ok (call s.world).0,
    logged (did deed (call s.world).0)
        (changed (call s.world).0 deed (record s { world = (call s.world).1 })),
  )

  -- A call that changes no entry.
  unfoldable pub change_nothing : (W → Option ℕ × W) → Action W (Option ℕ)
  change_nothing call s = (ok (call s.world).0, record s { world = (call s.world).1 })

  -- What the split of a path gives.
  unfoldable pub parts : SplitResult → Action W (Bytes × Bytes)
  parts (split parent name) s = (ok (parent, name), s)
  parts refused_entry s = (err invalid_path, s)
  parts refused_basename s = (err invalid_path, s)
  parts no_memory s = (err storage, s)

-- `error_value == ENOSYS || error_value == EINVAL` behind a rename.
abbrev pub rename_failure : ℕ → Failure
rename_failure error =
    if (error == 38) || (error == 22) then unsupported else system (errno_code error)

abbrev pub enoent : ℕ
enoent = 2

-- The entry is missing, and not only out of sight.
abbrev pub is_absent : Result ℕ Stat → Bool
is_absent (ok s) = false
is_absent (err error) = error == enoent

-- What the caller expects; `raises` tells that a getter of its table raises an error.
pub record Expected : Type 0 where
  pub raises : Bool
  pub get : Bytes → Value

abbrev pub verdict : {W : Type 0} → Expected → Stat → Option Identity → Action W Stat
verdict expected s none = fail target_changed
verdict expected s (some identity) =
    if expected.raises
    then fail raised
    else if identity_matches_lua expected.get identity
    then pure s
    else fail target_changed

-- `descriptor_matches_lua` and `stat_at_matches_lua`, by the answer of their call.
unfoldable pub verify : {W : Type 0} → Expected → Result ℕ Stat → Action W Stat
unfolding identity_from_stat identity_matches_lua pure fail
verify expected (err error) = fail target_changed
verify expected (ok s) = verdict expected s (identity_from_stat s)

module _ {W : Type 0} (sys : System W) where
  -- Back under the old name: the rename, and that the entry is there again and only there.
  unfoldable pub restore : ℕ → Bytes → ℕ → Bytes → (Stat → Bool) → Action W Bool
  unfolding ◌>>=◌ ◌>>◌ observe require or_fail change
  restore old old_name new new_name same = do
    refused ←
        change (sys.rename_no_replace new new_name old old_name) (renamed new new_name old old_name)
    require (is_none refused) unknown
    back ← observe sys (entry_at old old_name)
    s ← or_fail unknown back
    require (same s) unknown
    rest ← observe sys (entry_at new new_name)
    require (is_absent rest) unknown

  abbrev pub closing : Option ℕ → State W → State W
  closing none s = s
  closing (some d) s = record s { world = sys.close d s.world; trace = closed d ∷ s.trace }

  -- The end of every operation, and of the guard behind an error that was raised. The order of the
  -- three calls is the guard's.
  unfoldable pub close_slots : State W → State W
  close_slots s =
      record (closing s.slots.third (closing s.slots.second (closing s.slots.first s))) {
        slots = no_slots;
      }
