-- ===== src/Direct/Capture.antt =====
-- `capture_posix_metadata`.
use yaca.Base.{ℕ, true, List, if◌then◌else◌}
use yaca.Base.Result.{Result, ok, err}
use yaca.Metadata.{Attribute}
use yaca.Metadata.Xattrs.{
  Calls, Memory, Captured, proven, unsupported, error, has_no_flags, load_descriptor_xattrs,
}
use yaca.Direct.Facts.{Stat}

abbrev pub state_with : Stat → ℕ → List Attribute → yaca.Metadata.State
state_with found flags xattrs = record {
  mode = found.permissions;
  uid = found.uid;
  gid = found.gid;
  filesystem_flags = flags;
  xattrs = xattrs;
  proven = true;
}

abbrev pub with_xattrs :
    {W : Type 0} → Stat → ℕ → Captured (List Attribute) × W → Captured yaca.Metadata.State × W
with_xattrs found flags (proven xattrs, world) = (proven (state_with found flags xattrs), world)
with_xattrs found flags (unsupported, world) = (unsupported, world)
with_xattrs found flags (error, world) = (error, world)

module _ {W : Type 0} (calls : Calls W) where
  unfoldable pub with_flags : ℕ → Stat → Memory → Result ℕ ℕ × W → Captured yaca.Metadata.State × W
  unfolding load_descriptor_xattrs
  with_flags descriptor found memory (err errno, world) =
      (if has_no_flags errno then unsupported else error, world)
  with_flags descriptor found memory (ok flags, world) =
      with_xattrs found flags (load_descriptor_xattrs calls descriptor memory world)

  unfoldable pub capture_posix_metadata : ℕ → Stat → Memory → W → Captured yaca.Metadata.State × W
  unfolding with_flags
  capture_posix_metadata descriptor found memory world =
      with_flags descriptor found memory (calls.get_flags descriptor world)
