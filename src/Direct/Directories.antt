-- ===== src/Direct/Directories.antt =====
-- What the changes of a trace do to directories.
use yaca.Base.{
  ℕ, Bool, true, false, ◌&&◌, Option, none, some, List, [], ◌∷◌, ◌==◌, ◌≡◌, inl, inr, refl, sym, ap,
  ◌∙◌, arith, Bytes, Bool-cases, if◌then◌else◌,
}
use yaca.Metadata.{same_bytes}
use yaca.Metadata.Digest.{same_bytes-eq, same_bytes_refl}
use yaca.Direct.System.{Deed, opened, closed, renamed, exchanged, unlinked}
use yaca.Direct.Rules.{Undone, untouched, put_back, exchanged_back}

-- The object that a name in a directory stands for.
abbrev pub Directories : Type 0
Directories = ℕ → Bytes → Option ℕ

abbrev pub is_at : ℕ → Bytes → ℕ → Bytes → Bool
is_at p n x y = (x == p) && same_bytes y n

abbrev pub move : ℕ → Bytes → ℕ → Bytes → Directories → Option ℕ → Option Directories
move p n q m d (some object) = none
move p n q m d none =
    some λ x y. if is_at q m x y then d p n else if is_at p n x y then none else d x y

-- One change; `folder` tells which directory a descriptor is open on, as two may be on the same one.
-- `none` is where the system refuses it, which is a rename to a name that is there.
abbrev pub perform : (ℕ → ℕ) → Deed → Directories → Option Directories
perform folder (opened e) d = some d
perform folder (closed e) d = some d
perform folder (renamed p n q m) d = move (folder p) n (folder q) m d (d (folder q) m)
perform folder (exchanged p n m) d = some λ x y.
    if is_at (folder p) n x y
    then d (folder p) m
    else if is_at (folder p) m x y
    then d (folder p) n
    else d x y
perform folder (unlinked p n) d = some λ x y. if is_at (folder p) n x y then none else d x y

abbrev pub and_perform : (ℕ → ℕ) → Deed → Option Directories → Option Directories
and_perform folder deed none = none
and_perform folder deed (some d) = perform folder deed d

-- The changes of a trace, whose last one is first.
abbrev pub replay : (ℕ → ℕ) → List Deed → Directories → Option Directories
replay folder [] d = some d
replay folder (deed ∷ older) d = and_perform folder deed (replay folder older d)

pub is_at-eq : (p : ℕ) (n : Bytes) (x : ℕ) (y : Bytes) → is_at p n x y ≡ true → (x ≡ p) × (y ≡ n)
is_at-eq p n x y h = ground (arith, same_bytes-eq y n)

pub is_at_self : (p : ℕ) (n : Bytes) → is_at p n p n ≡ true
is_at_self p n = ground (arith, same_bytes_refl n)

is_some : Option Directories → Bool
is_some none = false
is_some (some d) = true

pub none_is_not_some : {e : Directories} → none ≡ some e → ⊥
unfolding is_some
none_is_not_some h = grind (arith, ap is_some h)

abbrev pub at_entry : ℕ → Bytes → Option Directories → Option ℕ
at_entry x y none = none
at_entry x y (some d) = d x y

-- An exchange that is done twice.
exchanged_twice :
    (folder : ℕ → ℕ) (p : ℕ) (n m : Bytes) (d : Directories) (x : ℕ) (y : Bytes)
    → at_entry x y (replay folder (exchanged p n m ∷ exchanged p n m ∷ []) d) ≡ d x y
exchanged_twice folder e n m d x y =
    let p = folder e in
    elim (Bool-cases (is_at p n x y)) [
      | inl a ↦
          let (k, f) = is_at-eq p n x y a in
          elim (Bool-cases (is_at p n p m)) [
            | inl b ↦
                let (g, h) = is_at-eq p n p m b in ground (arith, a, b, k, f, h, is_at_self p m)
            | inr b ↦ ground (arith, a, b, k, f, is_at_self p m)
          ]
      | inr a ↦ elim (Bool-cases (is_at p m x y)) [
        | inl b ↦ let (k, f) = is_at-eq p m x y b in ground (arith, a, b, k, f, is_at_self p n)
        | inr b ↦ ground (arith, a, b)
      ]
    ]

-- What a rename makes of an entry, when it is not refused.
abbrev pub moved_entry : ℕ → Bytes → ℕ → Bytes → Directories → Directories
moved_entry p n q m d x y = if is_at q m x y then d p n else if is_at p n x y then none else d x y

pub move-moved_entry :
    (p : ℕ) (n : Bytes) (q : ℕ) (m : Bytes) (d e : Directories) (target : Option ℕ) (x : ℕ)
    (y : Bytes)
    → move p n q m d target ≡ some e
    → e x y ≡ moved_entry p n q m d x y
move-moved_entry p n q m d e (some object) x y h = absurd (none_is_not_some h)
move-moved_entry p n q m d e none x y h = sym (ap (at_entry x y) h)

back_again :
    (p : ℕ) (n : Bytes) (q : ℕ) (m : Bytes) (d : Directories) (x : ℕ) (y : Bytes)
    → d q m ≡ none
    → moved_entry q m p n (moved_entry p n q m d) x y ≡ d x y
back_again p n q m d x y t = elim (Bool-cases (is_at p n x y)) [
  | inl a ↦ let (e, f) = is_at-eq p n x y a in ground (arith, a, e, f, is_at_self q m)
  | inr a ↦ elim (Bool-cases (is_at q m x y)) [
    | inl b ↦ let (e, f) = is_at-eq q m x y b in ground (arith, a, b, e, f, t)
    | inr b ↦ ground (arith, a, b)
  ]
]

moved_back :
    (folder : ℕ → ℕ) (p : ℕ) (n : Bytes) (q : ℕ) (m : Bytes) (d e : Directories) (target : Option ℕ)
    (x : ℕ) (y : Bytes)
    → d (folder q) m ≡ target
    → and_perform folder (renamed q m p n) (move (folder p) n (folder q) m d target) ≡ some e
    → e x y ≡ d x y
moved_back folder p n q m d e (some object) x y t h = absurd (none_is_not_some h)
moved_back folder p n q m d e none x y t h =
    move-moved_entry (folder q) m (folder p) n (moved_entry (folder p) n (folder q) m d) e _ x y h
    ∙ back_again (folder p) n (folder q) m d x y t

-- A change that was taken back has left every entry of every directory as it was.
pub replay-Undone :
    (folder : ℕ → ℕ) (list : List Deed) (d e : Directories) (x : ℕ) (y : Bytes)
    → Undone list
    → replay folder list d ≡ some e
    → e x y ≡ d x y
replay-Undone folder list d e x y untouched h = sym (ap (at_entry x y) h)
replay-Undone folder list d e x y (put_back p n q m) h =
    moved_back folder p n q m d e (d (folder q) m) x y refl h
replay-Undone folder list d e x y (exchanged_back p n m) h =
    sym (ap (at_entry x y) h) ∙ exchanged_twice folder p n m d x y
