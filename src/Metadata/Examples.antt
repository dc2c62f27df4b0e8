-- ===== src/Metadata/Examples.antt =====
-- The theorems on a state with one attribute.
use yaca.Base.{true, some, [], ◌∷◌, ◌++◌, length, codes, ◌≡◌, ◌≤◌, ◌↔◌, refl, arith}
use yaca.Hash.Context.Message.{message_limit}
use yaca.Hash.Context.Digest.{sha256}
use yaca.Metadata.{
  State, decimal, octal, scalar, digest_hex, posix_behavior_digest, posix_metadata_states_equal,
}
use yaca.Metadata.Fields.{behavior_message}
use yaca.Metadata.Digest.{posix_behavior_digest-behavior_message, posix_metadata_states_equal_iff}

abbrev plain : State
plain = record {
  mode = 33188;
  uid = 1000;
  gid = 100;
  filesystem_flags = 0;
  xattrs = record { name = codes "user.a"; value = 1 ∷ 0 ∷ [] } ∷ [];
  proven = true;
}

plain_numbers : scalar plain ≡ codes "100644:1000:100:0"
unfolding scalar
plain_numbers = refl

plain_message : length (behavior_message plain) ≤ message_limit
unfolding scalar decimal octal
plain_message = omega arith

posix_behavior_digest-behavior_message_example :
    posix_behavior_digest plain
    ≡ some (codes "posix-v2-" ++ digest_hex (sha256 (behavior_message plain)))
posix_behavior_digest-behavior_message_example =
    posix_behavior_digest-behavior_message plain
      (record {
        mode = omega arith;
        uid = omega arith;
        gid = omega arith;
        filesystem_flags = omega arith;
      })
      plain_message

posix_metadata_states_equal_iff_example :
    (posix_metadata_states_equal plain (record plain { uid = 0 }) ≡ true) ↔ (
      (plain.proven ≡ true)
      × (behavior_message plain ≡ behavior_message (record plain { uid = 0 })))
posix_metadata_states_equal_iff_example =
    posix_metadata_states_equal_iff plain (record plain { uid = 0 })
