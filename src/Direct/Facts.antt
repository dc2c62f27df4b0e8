-- ===== src/Direct/Facts.antt =====
-- What `fstat` tells of a file, the identity that Lua sees, and the comparisons of both.
use yaca.Base.{
  ℕ, suc, ◌-◌, Bool, false, ◌&&◌, Option, none, some, [], ◌∷◌, ◌++◌, ◌==◌, ltb, Bytes, length,
  replicate, codes, if◌then◌else◌,
}
use yaca.Base.Int.{ℤ, pos, negsuc}
use yaca.Metadata.{decimal, colon, same_bytes}
use yaca.Process.Request.{Value, integer, string}

-- `struct stat`: `st_mode` is its type, the bits of S_IFMT, and its permissions, those of 07777.
pub record Stat : Type 0 where
  pub device : ℕ
  pub inode : ℕ
  pub file_type : ℕ
  pub permissions : ℕ
  pub links : ℕ
  pub uid : ℕ
  pub gid : ℕ
  pub size : ℤ
  pub modified_seconds : ℤ
  pub modified_nanoseconds : ℤ
  pub changed_seconds : ℤ
  pub changed_nanoseconds : ℤ

-- S_IFREG and S_IFDIR.
abbrev pub regular_type : ℕ
regular_type = 0x8000

abbrev pub directory_type : ℕ
directory_type = 0x4000

abbrev pub is_regular : Stat → Bool
is_regular s = s.file_type == regular_type

abbrev pub is_directory : Stat → Bool
is_directory s = s.file_type == directory_type

abbrev pub same_integer : ℤ → ℤ → Bool
same_integer (pos m) (pos n) = m == n
same_integer (negsuc m) (negsuc n) = m == n
same_integer m n = false

unfoldable pub same_posix_object : Stat → Stat → Bool
same_posix_object left right =
    (left.device == right.device)
    && ((left.inode == right.inode) && (left.file_type == right.file_type))

unfoldable pub same_posix_published_facts : Stat → Stat → Bool
unfolding same_posix_object
same_posix_published_facts left right =
    same_posix_object left right
    && (same_integer left.size right.size
        && ((left.links == right.links)
            && ((left.permissions == right.permissions)
                && ((left.uid == right.uid)
                    && ((left.gid == right.gid)
                        && (same_integer left.modified_seconds right.modified_seconds
                            && same_integer left.modified_nanoseconds
                                right.modified_nanoseconds))))))

unfoldable pub same_stat_observation : Stat → Stat → Bool
same_stat_observation left right =
    (left.device == right.device)
    && ((left.inode == right.inode)
        && ((left.file_type == right.file_type)
            && (same_integer left.size right.size
                && ((left.links == right.links)
                    && (same_integer left.modified_seconds right.modified_seconds
                        && (same_integer left.modified_nanoseconds right.modified_nanoseconds
                            && (same_integer left.changed_seconds right.changed_seconds
                                && same_integer left.changed_nanoseconds
                                    right.changed_nanoseconds)))))))

-- `yaca_identity`; the texts are strings of C.
pub record Identity : Type 0 where
  pub kind : Bytes
  pub volume : Bytes
  pub object : Bytes
  pub modified : Bytes
  pub size : ℕ

abbrev pub lua_max_integer : ℕ
lua_max_integer = 0x7fffffffffffffff

abbrev kind_of : Stat → Bytes
kind_of s =
    if is_regular s
    then codes "file"
    else if is_directory s
    then codes "directory"
    else codes "other"

abbrev minus : ℕ
minus = 45

-- `%lld`
unfoldable pub signed : ℤ → Bytes
unfolding decimal
signed (pos n) = decimal n
signed (negsuc n) = minus ∷ decimal (suc n)

-- `%09ld`: zeros between the sign and the digits.
unfoldable pub padded : ℤ → Bytes
unfolding decimal
padded (pos n) = replicate (9 - length (decimal n)) 48 ++ decimal n
padded (negsuc n) = minus ∷ (replicate (8 - length (decimal (suc n))) 48 ++ decimal (suc n))

unfoldable pub modified_text : Stat → Bytes
unfolding signed padded
modified_text s =
    signed s.modified_seconds
    ++ (colon
        ∷ (padded s.modified_nanoseconds
            ++ (colon ∷ (signed s.changed_seconds ++ (colon ∷ padded s.changed_nanoseconds)))))

-- The size, if Lua has it.
abbrev pub admitted_size : ℤ → Option ℕ
admitted_size (negsuc n) = none
admitted_size (pos n) = if ltb lua_max_integer n then none else some n

abbrev pub identity_with : Stat → Option ℕ → Option Identity
unfolding decimal modified_text
identity_with s none = none
identity_with s (some size) = some (record {
  kind = kind_of s;
  volume = decimal s.device;
  object = decimal s.inode;
  modified = modified_text s;
  size = size;
})

unfoldable pub identity_from_stat : Stat → Option Identity
unfolding identity_with
identity_from_stat s = identity_with s (admitted_size s.size)

-- `lua_tostring`, of which `strcmp` reads the bytes before the first NUL; `none` is NULL.
abbrev pub until_nul : Bytes → Bytes
until_nul [] = []
until_nul (x ∷ xs) = if x == 0 then [] else x ∷ until_nul xs

unfoldable pub text_of : Value → Option Bytes
unfolding signed
text_of (string bytes) = some (until_nul bytes)
text_of (integer n) = some (signed n)
text_of value = none

abbrev pub is_text : Option Bytes → Bytes → Bool
is_text none text = false
is_text (some bytes) text = same_bytes bytes text

abbrev pub is_size : Value → ℕ → Bool
is_size (integer (pos n)) size = n == size
is_size value size = false

-- The fields that the caller's table gives for the identity that is expected.
unfoldable pub identity_matches_lua : (Bytes → Value) → Identity → Bool
unfolding text_of
identity_matches_lua expected identity =
    is_text (text_of (expected (codes "kind"))) identity.kind
    && (is_text (text_of (expected (codes "volume"))) identity.volume
        && (is_text (text_of (expected (codes "object"))) identity.object
            && (is_size (expected (codes "size")) identity.size
                && is_text (text_of (expected (codes "modified"))) identity.modified)))

abbrev pub matches : (Bytes → Value) → Option Identity → Bool
matches expected none = false
matches expected (some identity) = identity_matches_lua expected identity

-- `identity_from_stat(…) && identity_matches_lua(…)`
unfoldable pub stat_matches : (Bytes → Value) → Stat → Bool
unfolding identity_from_stat identity_matches_lua
stat_matches expected s = matches expected (identity_from_stat s)
