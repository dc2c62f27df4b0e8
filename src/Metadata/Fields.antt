-- ===== src/Metadata/Fields.antt =====
-- The message that is hashed for a state, and what it tells of the state.
use yaca.Base.{
  ◌<◌, Bool, true, false, List, [], ◌∷◌, ◌++◌, append_assoc, Bytes, length, length-append, ◌≡◌,
  refl, arith, ap, ap₂, ◌∙◌, sym,
}
use yaca.Metadata.{Attribute, State, decimal, octal, colon, scalar, availability, version}
use yaca.Metadata.Numerals.{
  has_colon, decimal-injective, octal-injective, has_colon-decimal, has_colon-octal,
}

-- A field: its length, a colon and its bytes.
abbrev pub field : Bytes → Bytes
field bytes = decimal (length bytes) ++ (colon ∷ bytes)

abbrev pub attribute_fields : List Attribute → Bytes
attribute_fields [] = []
attribute_fields (a ∷ rest) = field a.name ++ (field a.value ++ attribute_fields rest)

abbrev pub behavior_message : State → Bytes
behavior_message s =
    field version
    ++ (field (availability s.proven) ++ (field (scalar s) ++ attribute_fields s.xattrs))

-- The part before the first colon, and the part behind it, are determined.
cut :
    (xs ys r s : Bytes)
    → has_colon xs ≡ false
    → has_colon ys ≡ false
    → xs ++ (colon ∷ r) ≡ ys ++ (colon ∷ s)
    → (xs ≡ ys) × (r ≡ s)
cut [] [] r s a b h = (refl, cc)
cut [] (y ∷ ys) r s a b h = absurd (ground arith)
cut (x ∷ xs) [] r s a b h = absurd (ground arith)
cut (x ∷ xs) (y ∷ ys) r s a b h =
    let (e, f) = cut xs ys r s (ground arith) (ground arith) (cc) in let g : x ≡ y = cc in (cc, f)

append-injective :
    (xs ys r s : Bytes) → length xs ≡ length ys → xs ++ r ≡ ys ++ s → (xs ≡ ys) × (r ≡ s)
append-injective [] [] r s l h = (refl, h)
append-injective [] (y ∷ ys) r s l h = absurd (omega arith)
append-injective (x ∷ xs) [] r s l h = absurd (omega arith)
append-injective (x ∷ xs) (y ∷ ys) r s l h =
    let (e, f) = append-injective xs ys r s (omega arith) (cc) in let g : x ≡ y = cc in (cc, f)

field-injective : (f g r s : Bytes) → field f ++ r ≡ field g ++ s → (f ≡ g) × (r ≡ s)
field-injective f g r s h =
    let (e, t) =
      cut (decimal (length f)) (decimal (length g)) (f ++ r) (g ++ s) (has_colon-decimal (length f))
        (has_colon-decimal (length g))
        (sym (append_assoc (decimal (length f)) (colon ∷ f) r)
          ∙ h
          ∙ append_assoc (decimal (length g)) (colon ∷ g) s) in
    append-injective f g r s (decimal-injective (length f) (length g) e) t

-- A field is not empty.
field-pos : (f r : Bytes) → 0 < length (field f ++ r)
field-pos f r =
    omega (arith, length-append {0} (field f) r, length-append {0} (decimal (length f)) (colon ∷ f))

attribute_fields-injective :
    (xs ys : List Attribute) → attribute_fields xs ≡ attribute_fields ys → xs ≡ ys
attribute_fields-injective [] [] h = refl
attribute_fields-injective [] (y ∷ ys) h =
    absurd (omega (arith, field-pos y.name (field y.value ++ attribute_fields ys), ap length h))
attribute_fields-injective (x ∷ xs) [] h =
    absurd (omega (arith, field-pos x.name (field x.value ++ attribute_fields xs), ap length h))
attribute_fields-injective (x ∷ xs) (y ∷ ys) h =
    let (n, h') = field-injective x.name y.name _ _ h in
    let (v, h'') = field-injective x.value y.value _ _ h' in
    ap₂ ◌∷◌ (ap₂ (λ a b. record { name = a; value = b }) n v) (attribute_fields-injective xs ys h'')

availability-injective : (b c : Bool) → availability b ≡ availability c → b ≡ c
availability-injective true true h = refl
availability-injective true false h = cc
availability-injective false true h = cc
availability-injective false false h = refl

record SameScalar (s t : State) : Type 0 where
  mode : s.mode ≡ t.mode
  uid : s.uid ≡ t.uid
  gid : s.gid ≡ t.gid
  filesystem_flags : s.filesystem_flags ≡ t.filesystem_flags

scalar-injective : (s t : State) → scalar s ≡ scalar t → SameScalar s t
unfolding scalar
scalar-injective s t h =
    let (m, h1) =
      cut (octal s.mode) (octal t.mode) _ _ (has_colon-octal s.mode) (has_colon-octal t.mode) h in
    let (u, h2) =
      cut (decimal s.uid) (decimal t.uid) _ _ (has_colon-decimal s.uid) (has_colon-decimal t.uid)
        h1 in
    let (g, f) =
      cut (decimal s.gid) (decimal t.gid) _ _ (has_colon-decimal s.gid) (has_colon-decimal t.gid)
        h2 in
    record {
      mode = octal-injective s.mode t.mode m;
      uid = decimal-injective s.uid t.uid u;
      gid = decimal-injective s.gid t.gid g;
      filesystem_flags = decimal-injective s.filesystem_flags t.filesystem_flags f;
    }

-- States whose hashed messages are equal are equal.
pub behavior_message-injective : (s t : State) → behavior_message s ≡ behavior_message t → s ≡ t
behavior_message-injective s t h =
    let (v, h1) = field-injective version version _ _ h in
    let (a, h2) = field-injective (availability s.proven) (availability t.proven) _ _ h1 in
    let (c, h3) = field-injective (scalar s) (scalar t) _ _ h2 in
    let p = availability-injective s.proven t.proven a in
    let n = scalar-injective s t c in
    let x = attribute_fields-injective s.xattrs t.xattrs h3 in
    ground (arith, n.mode, n.uid, n.gid, n.filesystem_flags)
