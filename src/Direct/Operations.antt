-- ===== src/Direct/Operations.antt =====
-- The three operations under one type, by how they fail.
use yaca.Base.{ℕ, Option, none, some, ◌≡◌, arith, Bytes}
use yaca.Base.Result.{Result, ok, err}
use yaca.Direct.System.{State, Failure, unknown}
use yaca.Direct.Rules.{changes}
use yaca.Direct.Directories.{Directories, replay}
use yaca.Direct.Effects.{failure_replay, weightless}
use yaca.Direct.Rename.{RenameRequest, l_fs_rename_no_replace_verified}
use yaca.Direct.Rename.Proof.{Receipt, Renamed, l_fs_rename_no_replace_verified-Promised}
use yaca.Direct.Delete.{DeleteRequest, l_fs_delete_direct_verified}
use yaca.Direct.Delete.Proof.{Gone, Deleted, l_fs_delete_direct_verified-Promised}
use yaca.Direct.Replace.{Replacing, ReplaceRequest, l_fs_replace_verified}
use yaca.Direct.Replace.Proof.{Published, Replaced}
use yaca.Direct.Replace.Promise.{l_fs_replace_verified-Promised}

pub data Operation : Type 0 where
  replace : ReplaceRequest → Operation
  rename : RenameRequest → Operation
  delete : DeleteRequest → Operation

abbrev pub failure_of : {A : Type 0} → Result Failure A → Option Failure
failure_of (ok a) = none
failure_of (err f) = some f

-- The failure, if there is one, and the state behind the operation.
unfoldable pub run : {W : Type 0} → Replacing W → Operation → W → Option Failure × State W
unfolding l_fs_replace_verified l_fs_rename_no_replace_verified l_fs_delete_direct_verified
run sys (replace r) world =
    let ended = l_fs_replace_verified sys r world in (failure_of ended.0, ended.1)
run sys (rename r) world =
    let ended = l_fs_rename_no_replace_verified sys.system r world in (failure_of ended.0, ended.1)
run sys (delete r) world =
    let ended = l_fs_delete_direct_verified sys.system r world in (failure_of ended.0, ended.1)

failed : {A : Type 0} → (r : Result Failure A) (f : Failure) → failure_of r ≡ some f → r ≡ err f
failed (ok a) f h = grind (arith, h)
failed (err g) f h = grind (arith, h)

-- A replacement, a rename or a deletion that fails with another code than Unknown, whatever the
-- system has answered: what it has changed of directories leaves every entry as it was, if nobody
-- else changes them.
pub replay-run :
    {W : Type 0}
    → (sys : Replacing W) (operation : Operation) (world : W) (f : Failure) (folder : ℕ → ℕ)
      (d e : Directories) (x : ℕ) (y : Bytes)
    → (run sys operation world).0 ≡ some f
    → ¬ (f ≡ unknown)
    → replay folder (changes (run sys operation world).1.trace) d ≡ some e
    → e x y ≡ d x y
unfolding run
replay-run sys (replace r) world f folder d e x y h known k =
    failure_replay (λ identity list. Published r identity × Replaced r list)
      (l_fs_replace_verified sys r world) f folder d e x y
      (l_fs_replace_verified-Promised weightless sys r world) (failed _ f h) known k
replay-run sys (rename r) world f folder d e x y h known k =
    failure_replay (λ identity list. Receipt r identity × Renamed r list)
      (l_fs_rename_no_replace_verified sys.system r world) f folder d e x y
      (l_fs_rename_no_replace_verified-Promised weightless sys.system r world) (failed _ f h) known
      k
replay-run sys (delete r) world f folder d e x y h known k =
    failure_replay (λ a list. Gone r × Deleted r list)
      (l_fs_delete_direct_verified sys.system r world) f folder d e x y
      (l_fs_delete_direct_verified-Promised weightless sys.system r world) (failed _ f h) known k
