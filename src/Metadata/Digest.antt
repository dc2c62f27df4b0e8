-- ===== src/Metadata/Digest.antt =====
-- The digest of a state is the SHA-256 of its message, and the message is compared as the states.
use yaca.Base.{
  ◌+◌, ◌≤◌, ◌<◌, true, Option, some, List, [], ◌∷◌, ◌++◌, append_assoc, append-nil, lt→ltb, Bytes,
  length, length-append, codes, ◌≡◌, ◌↔◌, refl, arith, ap, ◌∙◌, sym, subst,
}
use yaca.Hash.Context.{Context, sha256_initialize}
use yaca.Hash.Context.Message.{
  HasAbsorbed, message_limit, initialize-HasAbsorbed, append-HasAbsorbed,
}
use yaca.Hash.Context.Digest.{sha256, finalize-sha256}
use yaca.Metadata.{
  Attribute, State, decimal, octal, colon, scalar, availability, version, next, append_digest_field,
  append_xattrs, digest_hex, finish, posix_behavior_digest, same_bytes, same_items,
  posix_metadata_states_equal,
}
use yaca.Metadata.Numerals.{length-decimal, length-octal}
use yaca.Metadata.Fields.{field, attribute_fields, behavior_message, behavior_message-injective}

-- Something was absorbed behind a message.
abbrev Absorbs : Bytes → Option Context → Type 0
Absorbs m o = (c : Context) × (o ≡ some c) × HasAbsorbed m c

field-Absorbs :
    (m bytes : Bytes) (o : Option Context)
    → Absorbs m o
    → length m + length (field bytes) ≤ message_limit
    → Absorbs (m ++ field bytes) (next (λ c. append_digest_field c bytes) o)
unfolding append_digest_field
field-Absorbs m bytes o (c, e, a) l =
    let header = decimal (length bytes) ++ (colon ∷ []) in
    let size = length-append {0} (decimal (length bytes)) (colon ∷ bytes) in
    let heading = length-append {0} (decimal (length bytes)) (colon ∷ []) in
    let digits = length-decimal 19 (length bytes) (omega (arith, size)) in
    let (c1, e1, a1) = append-HasAbsorbed m header c a (omega (arith, size, heading)) in
    let (c2, e2, a2) =
      append-HasAbsorbed (m ++ header) bytes c1 a1
        (omega (arith, size, heading, length-append {0} m header)) in
    (
      c2,
      ap (next (λ c. append_digest_field c bytes)) e
          ∙ rw (lt→ltb (length header) 64 (omega (arith, heading, digits)), e1) e2,
      subst (λ x. HasAbsorbed x c2)
          (append_assoc m header bytes
            ∙ ap (λ x. m ++ x) (append_assoc (decimal (length bytes)) (colon ∷ []) bytes))
          a2,
    )

xattrs-Absorbs :
    (xs : List Attribute) (m : Bytes) (o : Option Context)
    → Absorbs m o
    → length m + length (attribute_fields xs) ≤ message_limit
    → Absorbs (m ++ attribute_fields xs) (next (append_xattrs xs) o)
unfolding append_xattrs
xattrs-Absorbs [] m o (c, e, a) l =
    (c, ap (next (append_xattrs [])) e, subst (λ x. HasAbsorbed x c) (sym (append-nil m)) a)
xattrs-Absorbs (x ∷ xs) m o (c, e, a) l =
    let n = length-append {0} (field x.name) (field x.value ++ attribute_fields xs) in
    let v = length-append {0} (field x.value) (attribute_fields xs) in
    let named = field-Absorbs m x.name (some c) (c, refl, a) (omega (arith, n)) in
    let k = length-append {0} m (field x.name) in
    let valued = field-Absorbs (m ++ field x.name) x.value _ named (omega (arith, n, v, k)) in
    let (d, f, b) =
      xattrs-Absorbs xs ((m ++ field x.name) ++ field x.value) _ valued
        (omega (arith, n, v, k, length-append {0} (m ++ field x.name) (field x.value))) in
    (
      d,
      ap (next (append_xattrs (x ∷ xs))) e ∙ f,
      subst (λ y. HasAbsorbed y d)
          (append_assoc (m ++ field x.name) (field x.value) (attribute_fields xs)
            ∙ append_assoc m (field x.name) _)
          b,
    )

-- The numbers fit the types of the source: 32 bits for the mode and the flags, 64 for the owners.
pub record IsRepresentable (s : State) : Type 0 where
  pub mode : s.mode < 0x100000000
  pub uid : s.uid < 0x10000000000000000
  pub gid : s.gid < 0x10000000000000000
  pub filesystem_flags : s.filesystem_flags < 0x100000000

length-scalar : (s : State) → IsRepresentable s → length (scalar s) < 96
unfolding scalar
length-scalar s r = omega (
  arith,
  length-append {0} (octal s.mode) (
      colon ∷ (decimal s.uid ++ (colon ∷ (decimal s.gid ++ (colon ∷ decimal s.filesystem_flags))))),
  length-append {0} (decimal s.uid)
      (colon ∷ (decimal s.gid ++ (colon ∷ decimal s.filesystem_flags))),
  length-append {0} (decimal s.gid) (colon ∷ decimal s.filesystem_flags),
  length-octal 10 s.mode (omega (arith, r.mode)),
  length-decimal 19 s.uid (omega (arith, r.uid)),
  length-decimal 19 s.gid (omega (arith, r.gid)),
  length-decimal 9 s.filesystem_flags (omega (arith, r.filesystem_flags)),
)

-- For a state whose numbers fit their types, with a message that the hash admits, the digest is
-- the text "posix-v2-" and the SHA-256 of the message in hexadecimal: it never fails.
pub posix_behavior_digest-behavior_message :
    (s : State)
    → IsRepresentable s
    → length (behavior_message s) ≤ message_limit
    → posix_behavior_digest s ≡ some (codes "posix-v2-" ++ digest_hex (sha256 (behavior_message s)))
unfolding posix_behavior_digest
posix_behavior_digest-behavior_message s r l =
    let tail = attribute_fields s.xattrs in
    let w =
      length-append {0} (field version)
        (field (availability s.proven) ++ (field (scalar s) ++ tail)) in
    let a = length-append {0} (field (availability s.proven)) (field (scalar s) ++ tail) in
    let n = length-append {0} (field (scalar s)) tail in
    let first =
      field-Absorbs [] version (some sha256_initialize)
        (sha256_initialize, refl, initialize-HasAbsorbed) (omega (arith, w)) in
    let second =
      field-Absorbs (field version) (availability s.proven) _ first (omega (arith, w, a)) in
    let k = length-append {0} (field version) (field (availability s.proven)) in
    let third =
      field-Absorbs (field version ++ field (availability s.proven)) (scalar s) _ second
        (omega (arith, w, a, n, k)) in
    let (c, e, h) =
      xattrs-Absorbs s.xattrs ((field version ++ field (availability s.proven)) ++ field (scalar s))
        _ third
        (omega (
          arith,
          w,
          a,
          n,
          k,
          length-append {0} (field version ++ field (availability s.proven)) (field (scalar s)),
        )) in
    let whole : HasAbsorbed (behavior_message s) c =
      subst (λ x. HasAbsorbed x c)
        (append_assoc (field version ++ field (availability s.proven)) (field (scalar s)) tail
          ∙ append_assoc (field version) (field (availability s.proven)) _)
        h in
    rw (lt→ltb (length (scalar s)) 96 (length-scalar s r)) (
      ap finish e
      ∙ ap (λ x. some (codes "posix-v2-" ++ digest_hex x))
          (finalize-sha256 (behavior_message s) c whole))

pub same_bytes-eq : (xs ys : Bytes) → same_bytes xs ys ≡ true → xs ≡ ys
same_bytes-eq [] [] h = refl
same_bytes-eq [] (y ∷ ys) h = cc
same_bytes-eq (x ∷ xs) [] h = cc
same_bytes-eq (x ∷ xs) (y ∷ ys) h = ground (arith, same_bytes-eq xs ys)

pub same_bytes_refl : (xs : Bytes) → same_bytes xs xs ≡ true
same_bytes_refl [] = refl
same_bytes_refl (x ∷ xs) = ground (arith, same_bytes_refl xs)

same_items-eq :
    (xs ys : List Attribute) → (length xs ≡ length ys) → same_items xs ys ≡ true → xs ≡ ys
unfolding same_items
same_items-eq [] [] l h = refl
same_items-eq [] (y ∷ ys) l h = absurd (omega arith)
same_items-eq (x ∷ xs) [] l h = absurd (omega arith)
same_items-eq (x ∷ xs) (y ∷ ys) l h =
    ground (arith, same_bytes-eq x.name y.name, same_bytes-eq x.value y.value, same_items-eq xs ys)

same_items_refl : (xs : List Attribute) → same_items xs xs ≡ true
unfolding same_items
same_items_refl [] = refl
same_items_refl (x ∷ xs) =
    ground (arith, same_bytes_refl x.name, same_bytes_refl x.value, same_items_refl xs)

equal-states : (s t : State) → posix_metadata_states_equal s t ≡ true → s ≡ t
unfolding posix_metadata_states_equal
equal-states s t h = ground (arith, same_items-eq s.xattrs t.xattrs)

equal_refl : (s : State) → s.proven ≡ true → posix_metadata_states_equal s s ≡ true
unfolding posix_metadata_states_equal
equal_refl s h = ground (arith, same_items_refl s.xattrs)

-- Two states are compared as equal exactly if the first is proven and the messages that their
-- digests hash are the same bytes: no two different states share a message.
pub posix_metadata_states_equal_iff :
    (s t : State)
    → (posix_metadata_states_equal s t ≡ true)
      ↔ ((s.proven ≡ true) × (behavior_message s ≡ behavior_message t))
posix_metadata_states_equal_iff s t = (
  λ h. (proven_of s t h, ap (λ u. behavior_message u) (equal-states s t h)),
  λ (p, m).
      subst (λ u. posix_metadata_states_equal s u ≡ true) (behavior_message-injective s t m)
        (equal_refl s p),
)
  where
    proven_of : (s t : State) → posix_metadata_states_equal s t ≡ true → s.proven ≡ true
    proven_of s t h = unfold posix_metadata_states_equal in ground arith
