-- ===== src/Files/Opening/Verified.antt =====
-- What a verified opening has seen.
use yaca.Base.{ℕ, Bool, true, false, Option, none, some, ◌≡◌, refl, arith, Bytes, if◌then◌else◌}
use yaca.Base.Result.{Result, ok, err}
use yaca.Process.State.{errno_code}
use yaca.Direct.Facts.{Stat, Identity, is_regular, identity_from_stat}
use yaca.Direct.System.{Expected}
use yaca.Direct.Rules.Calls.{Matches}
use yaca.Files.{Calls, Failure, File, State, file_of, checked_byte_string}
use yaca.Files.Opening.{
  is_absolute, kept_or_closed, verify_opened, identity_failure, file_failure, match_failure,
  l_fs_open_read_verified,
}

module _ {W : Type 0} (sys : Calls W) where
  identity_failure-Matches :
      (expected : Expected) (found : Stat) (identity : Option Identity)
      → identity_from_stat found ≡ identity
      → identity_failure sys expected identity ≡ none
      → Matches expected found
  identity_failure-Matches expected found none e h = grind (arith, h)
  identity_failure-Matches expected found (some identity) e h = record {
    identity = identity;
    found = e;
    matched = ground (arith, h);
  }

  pub match_failure-Matches :
      (expected : Expected) (answer : Result ℕ Stat)
      → match_failure sys expected answer ≡ none
      → (found : Stat) × (answer ≡ ok found) × Matches expected found
  match_failure-Matches expected (err error) h = grind (arith, h)
  match_failure-Matches expected (ok found) h =
      (found, refl, identity_failure-Matches expected found (identity_from_stat found) refl h)

  regular_or_none :
      (b : Bool) (failure : Option Failure) (refusal : Failure)
      → (if b then failure else some refusal) ≡ none
      → (b ≡ true) × (failure ≡ none)
  regular_or_none true failure refusal h = (refl, h)
  regular_or_none false failure refusal h = grind (arith, h)

  file_failure-Matches :
      (expected : Expected) (answer : Result ℕ Stat)
      → file_failure sys expected answer ≡ none
      → (found : Stat) × (answer ≡ ok found) × (is_regular found ≡ true) × Matches expected found
  file_failure-Matches expected (err error) h = grind (arith, h)
  file_failure-Matches expected (ok found) h =
      let (r, k) =
        regular_or_none (is_regular found)
          (identity_failure sys expected (identity_from_stat found)) _ h in
      (found, refl, r, identity_failure-Matches expected found (identity_from_stat found) refl k)

  kept-none :
      (d : ℕ) (failure : Option Failure) (s : State W) (file : File)
      → (kept_or_closed sys d failure s).0 ≡ ok file
      → (failure ≡ none) × (file ≡ file_of d)
  kept-none d none s file h = (refl, grind (arith, h))
  kept-none d (some failure) s file h = grind (arith, h)

  -- The opened file is a regular one and what the caller expects.
  pub record Verified (expected : Expected) (answer : Result ℕ ℕ) (world : W) (file : File)
      : Type 0 where
    pub descriptor : ℕ
    pub found : Stat
    pub answered : answer ≡ ok descriptor
    pub given : file ≡ file_of descriptor
    pub seen : (sys.fstat (some descriptor) world).0 ≡ ok found
    pub regular : is_regular found ≡ true
    pub matched : Matches expected found

  verify_opened-Verified :
      (expected : Expected) (answer : Result ℕ ℕ) (s : State W) (file : File)
      → (verify_opened sys expected answer s).0 ≡ ok file
      → Verified expected answer s.world file
  unfolding errno_code
  verify_opened-Verified expected (err error) s file h = grind (arith, h)
  verify_opened-Verified expected (ok d) s file h =
      let (none_failed, same) =
        kept-none d (file_failure sys expected (sys.fstat (some d) s.world).0) _ file h in
      let (found, seen, regular, matched) = file_failure-Matches expected _ none_failed in
      record {
        descriptor = d;
        found = found;
        answered = refl;
        given = same;
        seen = seen;
        regular = regular;
        matched = matched;
      }

  pub admitted_if :
      (b : Bool) (failure : Failure) (s : State W) (rest : Result Failure File × State W)
      (file : File)
      → (if b then rest else (err failure, s)).0 ≡ ok file
      → (b ≡ true) × (rest.0 ≡ ok file)
  admitted_if true failure s rest file h = (refl, h)
  admitted_if false failure s rest file h = grind (arith, h)

  -- A verified opening that gives a file: the path is absolute, and the descriptor that was opened
  -- for it is the file's and tells a regular file with the identity that the caller expects.
  pub l_fs_open_read_verified-Verified :
      (path : Bytes) (expected : Expected) (s : State W) (file : File)
      → (l_fs_open_read_verified sys path expected s).0 ≡ ok file
      → let answer = sys.open_no_follow path s.world in
        (is_absolute path ≡ true) × Verified expected answer.0 answer.1 file
  unfolding l_fs_open_read_verified
  l_fs_open_read_verified-Verified path expected s file h =
      let (a, k) = admitted_if (checked_byte_string path) _ s _ file h in
      let (b, l) = admitted_if (is_absolute path) _ s _ file k in
      (b, verify_opened-Verified expected (sys.open_no_follow path s.world).0 _ file l)
