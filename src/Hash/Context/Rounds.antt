-- ===== src/Hash/Context/Rounds.antt =====
-- `sha256_append`: the loop over a buffer feeds the bytes one by one.
use yaca.Base.{
  ℕ, zero, suc, ◌+◌, ◌-◌, ◌≤◌, ◌<◌, [], ◌∷◌, ◌++◌, ◌≡◌, refl, ap, sym, subst, ◌∙◌, arith, Bytes,
  length, take, drop, length-take, length-drop, take-append-drop, take-all, lt→ltb, lt→not_eq,
  le→not_ltb, ==_iff, lt-cases, Bool, leb, ◌==◌, ◌&&◌, Bool-cases, true, false, inl, inr, ◌⊎◌,
}
use yaca.Hash.Compress.{compress}
use yaca.Hash.Context.{
  Context, block_size, overwrite, sha256_transform, append_round, append_loop, room,
}
use yaca.Hash.Context.Buffer.{IsOpen, pending, length-overwrite, take-overwrite}
use yaca.Hash.Context.Absorb.{Absorber, absorb, absorb-append, absorb_room, absorb_full}

abbrev pub view : Context → Absorber
view c = record { chain = c.state; partial = pending c }

-- A call that absorbs `taken` and changes nothing but the chain and the partial block.
pub record Absorbs (c : Context) (taken : Bytes) (c' : Context) : Type 0 where
  pub stays_open : IsOpen c'
  pub absorbed : view c' ≡ absorb (view c) taken
  pub same_count : c'.byte_count ≡ c.byte_count
  pub same_closed : c'.closed ≡ c.closed

-- The three things that a round can do.
module _ (c : Context) (bytes : Bytes) where
  whole_block : Context
  whole_block = sha256_transform c (take block_size bytes)

  abbrev fill : ℕ → Context
  fill n = record c {
    buffer = overwrite c.buffer c.buffer_length (take n bytes);
    buffer_length = c.buffer_length + n;
  }

  filled_block : ℕ → Context
  filled_block n =
      let filled = fill n in record (sha256_transform filled filled.buffer) { buffer_length = 0 }

module _ (c : Context) (bytes : Bytes) (o : IsOpen c) where
  length-pending : length (pending c) ≡ c.buffer_length
  length-pending = omega (arith, length-take c.buffer_length c.buffer, o.full_array, o.partial)

  whole_block-Absorbs :
      c.buffer_length ≡ 0
      → block_size ≤ length bytes
      → Absorbs c (take block_size bytes) (whole_block c bytes)
  unfolding whole_block sha256_transform
  whole_block-Absorbs e h = record {
    stays_open = record { full_array = o.full_array; partial = o.partial };
    absorbed =
        let block = take block_size bytes in
        let empty : pending c ≡ [] = ap (λ t. take t c.buffer) e in
        ap (λ t. record { chain = compress c.state block; partial = t }) empty
        ∙ sym (
            ap (λ t. absorb (record { chain = c.state; partial = t }) block) empty
            ∙ absorb_full c.state [] block (omega arith)
                (omega (arith, length-take block_size bytes)));
    same_count = refl;
    same_closed = refl;
  }

  module _ (n : ℕ) (h : n ≤ length bytes) (k : c.buffer_length + n ≤ block_size) where
    length_taken : length (take n bytes) ≡ n
    length_taken = omega (arith, length-take n bytes)

    taken_fits : c.buffer_length + length (take n bytes) ≤ length c.buffer
    taken_fits = omega (arith, length_taken, o.full_array)

    length_filled : length (overwrite c.buffer c.buffer_length (take n bytes)) ≡ block_size
    length_filled =
        length-overwrite c.buffer c.buffer_length (take n bytes) taken_fits ∙ o.full_array

    pending_filled : pending (fill c bytes n) ≡ pending c ++ take n bytes
    pending_filled =
        subst
          (λ t.
            take (c.buffer_length + t) (overwrite c.buffer c.buffer_length (take n bytes))
            ≡ pending c ++ take n bytes)
          length_taken (take-overwrite c.buffer c.buffer_length (take n bytes) taken_fits)

  fill-Absorbs :
      (n : ℕ)
      → n ≤ length bytes
      → c.buffer_length + n < block_size
      → Absorbs c (take n bytes) (fill c bytes n)
  fill-Absorbs n h k =
      let fits : c.buffer_length + n ≤ block_size = omega arith in
      record {
        stays_open = record { full_array = length_filled n h fits; partial = k };
        absorbed =
            ap (λ t. record { chain = c.state; partial = t }) (pending_filled n h fits)
            ∙ sym (
                absorb_room c.state (pending c) (take n bytes)
                  (omega (arith, length-pending, length_taken n h fits)));
        same_count = refl;
        same_closed = refl;
      }

  filled_block-Absorbs :
      (n : ℕ)
      → n ≤ length bytes
      → c.buffer_length + n ≡ block_size
      → Absorbs c (take n bytes) (filled_block c bytes n)
  unfolding filled_block sha256_transform
  filled_block-Absorbs n h k =
      let fits : c.buffer_length + n ≤ block_size = omega arith in
      let whole : overwrite c.buffer c.buffer_length (take n bytes) ≡ pending c ++ take n bytes =
        sym (take-all (c.buffer_length + n) _ (omega (arith, length_filled n h fits)))
        ∙ pending_filled n h fits in
      record {
        stays_open = record { full_array = length_filled n h fits; partial = omega arith };
        absorbed =
            ap (λ t. record { chain = compress c.state t; partial = [] }) whole
            ∙ sym (
                absorb_full c.state (pending c) (take n bytes)
                  (omega (arith, length-pending, o.partial))
                  (omega (arith, length-pending, length_taken n h fits)));
        same_count = refl;
        same_closed = refl;
      }

-- What a round of the loop promises: it takes at least one byte, and absorbs what it takes.
abbrev Progress : Context → Bytes → Context × Bytes → Type 0
Progress c bytes (c', rest) =
    (n : ℕ) × (1 ≤ n) × (n ≤ length bytes) × (rest ≡ drop n bytes) × Absorbs c (take n bytes) c'

module _ (c : Context) (bytes : Bytes) where
  abbrev is_whole : Bool
  is_whole = (c.buffer_length == 0) && leb block_size (length bytes)

  round_whole :
      is_whole ≡ true → append_round c bytes ≡ (whole_block c bytes, drop block_size bytes)
  unfolding append_round whole_block
  round_whole h = rw (h, append_round)

  round_fill :
      is_whole ≡ false
      → c.buffer_length + length bytes < block_size
      → append_round c bytes ≡ (fill c bytes (length bytes), drop (length bytes) bytes)
  unfolding append_round
  round_fill h k = rw (
    lt→ltb (length bytes) (block_size - c.buffer_length) (omega arith),
    h,
    lt→not_eq (c.buffer_length + length bytes) block_size k,
  )

  round_filled :
      is_whole ≡ false
      → c.buffer_length < block_size
      → block_size ≤ c.buffer_length + length bytes
      → let n = block_size - c.buffer_length in
        append_round c bytes ≡ (filled_block c bytes n, drop n bytes)
  unfolding append_round filled_block
  round_filled h k l = rw (
    le→not_ltb (length bytes) (block_size - c.buffer_length) (omega arith),
    h,
    (==_iff (c.buffer_length + (block_size - c.buffer_length)) block_size).1 (omega arith),
  )

  is_whole-true : is_whole ≡ true → (c.buffer_length ≡ 0) × (block_size ≤ length bytes)
  is_whole-true h = ground arith

  is_whole-false : is_whole ≡ false → (1 ≤ c.buffer_length) ⊎ (length bytes < block_size)
  is_whole-false h = ground arith

  append_round-Progress : 1 ≤ length bytes → IsOpen c → Progress c bytes (append_round c bytes)
  append_round-Progress pos o = elim (Bool-cases is_whole) [
    | inl h ↦
        let (empty, long) = is_whole-true h in
        subst (Progress c bytes) (sym (round_whole h))
          (block_size, omega arith, long, refl, whole_block-Absorbs c bytes o empty long)
    | inr h ↦ elim (lt-cases (c.buffer_length + length bytes) block_size) [
      | inl room ↦ subst (Progress c bytes) (sym (round_fill h room)) (
        length bytes,
        pos,
        omega arith,
        refl,
        fill-Absorbs c bytes o (length bytes) (omega arith) room,
      )
      | inr full ↦
          let n = block_size - c.buffer_length in
          subst (Progress c bytes) (sym (round_filled h o.partial full)) (
            n,
            omega (arith, o.partial),
            omega arith,
            refl,
            filled_block-Absorbs c bytes o n (omega arith) (omega (arith, o.partial)),
          )
    ]
  ]

Absorbs-trans :
    {c c' c'' : Context} (xs ys : Bytes)
    → Absorbs c xs c'
    → Absorbs c' ys c''
    → Absorbs c (xs ++ ys) c''
Absorbs-trans {c} {c'} {c''} xs ys p q = record {
  stays_open = q.stays_open;
  absorbed = q.absorbed ∙ ap (λ r. absorb r ys) p.absorbed ∙ sym (absorb-append (view c) xs ys);
  same_count = q.same_count ∙ p.same_count;
  same_closed = q.same_closed ∙ p.same_closed;
}

Absorbs-step :
    (fuel : ℕ) (c : Context) (byte : ℕ) (bytes : Bytes)
    → let (c', rest) = append_round c (byte ∷ bytes) in
      Absorbs c (byte ∷ bytes) (append_loop fuel c' rest)
      → Absorbs c (byte ∷ bytes) (append_loop (suc fuel) c (byte ∷ bytes))
unfolding append_loop
Absorbs-step fuel c byte bytes h = h

-- With a round for each byte at most, the loop takes them all.
pub append_loop-Absorbs :
    (fuel : ℕ) (c : Context) (bytes : Bytes)
    → IsOpen c
    → length bytes ≤ fuel
    → Absorbs c bytes (append_loop fuel c bytes)
append_loop-Absorbs fuel c [] o h = record {
  stays_open = unfold append_loop in o;
  absorbed = unfold append_loop in refl;
  same_count = unfold append_loop in refl;
  same_closed = unfold append_loop in refl;
}
append_loop-Absorbs zero c (byte ∷ bytes) o h = absurd (omega arith)
append_loop-Absorbs (suc fuel) c (byte ∷ bytes) o h =
    let (n, pos, le, e, absorbs) = append_round-Progress c (byte ∷ bytes) (omega arith) o in
    let c' = (append_round c (byte ∷ bytes)).0 in
    let rest = (append_round c (byte ∷ bytes)).1 in
    let shorter : length rest ≤ fuel =
      omega (arith, ap (λ (t : Bytes). length t) e, length-drop n (byte ∷ bytes)) in
    let all : take n (byte ∷ bytes) ++ rest ≡ byte ∷ bytes =
      ap (λ t. take n (byte ∷ bytes) ++ t) e ∙ take-append-drop n (byte ∷ bytes) in
    Absorbs-step fuel c byte bytes (
      subst (λ t. Absorbs c t (append_loop fuel c' rest)) all
        (Absorbs-trans (take n (byte ∷ bytes)) rest absorbs
          (append_loop-Absorbs fuel c' rest absorbs.stays_open shorter)))
