-- ===== src/Metadata.antt =====
-- The metadata of a file in native/yaca_native.c on POSIX systems: its comparison and its digest.
pub mod Numerals
pub mod Fields
pub mod Digest
pub mod Xattrs
mod Examples
use yaca.Base.{
  ℕ, zero, suc, ◌+◌, ◌-◌, ◌*◌, ◌/◌, ◌%◌, Bool, true, false, ◌&&◌, Option, none, some, List, [], ◌∷◌,
  ◌++◌, ◌==◌, ltb, Bytes, length, codes, if◌then◌else◌,
}
use yaca.Hash.Context.{Context, sha256_initialize, sha256_append, sha256_finalize}

-- `yaca_xattr`: a name, which is a string of C, and a value.
pub record Attribute : Type 0 where
  pub name : Bytes
  pub value : Bytes

-- `yaca_posix_metadata_state`
pub record State : Type 0 where
  pub mode : ℕ
  pub uid : ℕ
  pub gid : ℕ
  pub filesystem_flags : ℕ
  pub xattrs : List Attribute
  pub proven : Bool

-- `strcmp(…) == 0` of names and `memcmp(…) == 0` of values of equal length.
abbrev pub same_bytes : Bytes → Bytes → Bool
same_bytes [] [] = true
same_bytes [] (y ∷ ys) = false
same_bytes (x ∷ xs) [] = false
same_bytes (x ∷ xs) (y ∷ ys) = (x == y) && same_bytes xs ys

pub same_items : List Attribute → List Attribute → Bool
same_items [] [] = true
same_items [] (b ∷ bs) = true
same_items (a ∷ more) [] = true
same_items (a ∷ more) (b ∷ bs) =
    same_bytes a.name b.name
    && ((length a.value == length b.value) && (same_bytes a.value b.value && same_items more bs))

-- The loop runs over the items of the left set, of which the right set has as many.
pub xattr_sets_equal : List Attribute → List Attribute → Bool
unfolding same_items
xattr_sets_equal left right = (length left == length right) && same_items left right

unfoldable pub posix_metadata_states_equal : State → State → Bool
unfolding xattr_sets_equal
posix_metadata_states_equal left right =
    left.proven
    && (right.proven
        && ((left.mode == right.mode)
            && ((left.uid == right.uid)
                && ((left.gid == right.gid)
                    && ((left.filesystem_flags == right.filesystem_flags)
                        && xattr_sets_equal left.xattrs right.xattrs)))))

-- The digits of a number before those that are there, as `snprintf` writes them. The fuel is more
-- than the number of digits.
pub digits_loop : ℕ → ℕ → ℕ → Bytes → Bytes
digits_loop base zero n digits = digits
digits_loop base (suc fuel) n digits =
    let more = digits_loop base fuel (n / base) ((48 + n % base) ∷ digits) in
    if n / base == 0 then (48 + n % base) ∷ digits else more

-- `%zu`, `%llu` and `%u`, and `%llo`.
unfoldable pub decimal : ℕ → Bytes
unfolding digits_loop
decimal n = digits_loop 10 (suc n) n []

unfoldable pub octal : ℕ → Bytes
unfolding digits_loop
octal n = digits_loop 8 (suc n) n []

abbrev pub colon : ℕ
colon = 58

abbrev pub next : (Context → Option Context) → Option Context → Option Context
next rest none = none
next rest (some context) = rest context

-- `header` has room for 64 bytes with the NUL.
pub append_digest_field : Context → Bytes → Option Context
unfolding decimal sha256_append
append_digest_field context bytes =
    let header = decimal (length bytes) ++ (colon ∷ []) in
    if ltb (length header) 64
    then next (λ c. sha256_append c bytes) (sha256_append context header)
    else none

-- The four numbers of a state.
unfoldable pub scalar : State → Bytes
unfolding decimal octal
scalar s =
    octal s.mode
    ++ (colon
        ∷ (decimal s.uid ++ (colon ∷ (decimal s.gid ++ (colon ∷ decimal s.filesystem_flags)))))

abbrev pub availability : Bool → Bytes
availability true = codes "proven"
availability false = codes "unsupported"

pub append_xattrs : List Attribute → Context → Option Context
unfolding append_digest_field
append_xattrs [] context = some context
append_xattrs (a ∷ rest) context =
    next (append_xattrs rest)
      (next (λ c. append_digest_field c a.value) (append_digest_field context a.name))

abbrev pub hexadecimal : ℕ → ℕ
hexadecimal n = if ltb n 10 then 48 + n else 87 + n

pub digest_hex : Bytes → Bytes
digest_hex [] = []
digest_hex (byte ∷ bytes) = hexadecimal (byte / 16) ∷ hexadecimal (byte % 16) ∷ digest_hex bytes

abbrev pub version : Bytes
version = codes "yaca-posix-behavior-v2"

abbrev pub finish : Option Context → Option Bytes
finish none = none
finish (some context) = some (codes "posix-v2-" ++ digest_hex (sha256_finalize context).1)

-- `scalar` has room for 96 bytes with the NUL; the result always has 73 bytes.
unfoldable pub posix_behavior_digest : State → Option Bytes
unfolding append_digest_field scalar append_xattrs digest_hex sha256_initialize sha256_finalize
posix_behavior_digest s =
    let begun =
      next (λ c. append_digest_field c (availability s.proven))
        (append_digest_field sha256_initialize version) in
    if ltb (length (scalar s)) 96
    then finish (next (append_xattrs s.xattrs) (next (λ c. append_digest_field c (scalar s)) begun))
    else none
