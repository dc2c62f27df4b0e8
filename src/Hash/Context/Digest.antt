-- ===== src/Hash/Context/Digest.antt =====
-- `sha256_finalize` computes the SHA-256 of the absorbed message.
use yaca.Base.{
  ℕ, ◌+◌, ◌-◌, ◌*◌, ◌/◌, ◌%◌, ◌^◌, ◌≤◌, ◌<◌, [], ◌∷◌, ◌++◌, append_assoc, ◌≡◌, refl, ap, sym, subst,
  ◌∙◌, arith, Bytes, length, take, replicate, length-append, length-replicate, replicate-add,
  length-take, take-all, inl, inr, lt-cases, le→not_ltb, lt→ltb,
}
use yaca.Hash.Compress.{compress}
use yaca.Hash.Context.{
  Context, block_size, overwrite, store_count, sha256_finalize, digest_of, initial_chain,
}
use yaca.Hash.Context.Buffer.{IsOpen, pending, length-overwrite, take-overwrite}
use yaca.Hash.Context.Absorb.{
  Absorber, absorb, absorb-append, absorb_full, absorb-hash_blocks, hash_blocks,
}
use yaca.Hash.Context.Rounds.{view}
use yaca.Hash.Context.Padding.{
  padded, tail_of, count_bytes, store_count_lem, length-absorb, length-tail_of,
}
use yaca.Hash.Context.Message.{HasAbsorbed, start}

-- The SHA-256 of a whole message: its padded blocks, compressed one after the other.
pub sha256 : Bytes → Bytes
sha256 m = digest_of (hash_blocks (length (padded m) / block_size) initial_chain (padded m))

-- A write of `bytes` behind `front`, in a buffer that begins with `front`.
prefix_grows :
    (buffer front bytes : Bytes) (offset : ℕ)
    → length front ≡ offset
    → take offset buffer ≡ front
    → offset + length bytes ≤ length buffer
    → take (offset + length bytes) (overwrite buffer offset bytes) ≡ front ++ bytes
prefix_grows buffer front bytes offset l e fits =
    take-overwrite buffer offset bytes fits ∙ ap (λ t. t ++ bytes) e

module _ (c : Context) (o : IsOpen c) where
  marked : Bytes
  marked = overwrite c.buffer c.buffer_length (0x80 ∷ [])

  length-marked : length marked ≡ block_size
  unfolding marked
  length-marked =
      length-overwrite c.buffer c.buffer_length (0x80 ∷ []) (omega (arith, o.full_array, o.partial))
      ∙ o.full_array

  length-pending : length (pending c) ≡ c.buffer_length
  length-pending = omega (arith, length-take c.buffer_length c.buffer, o.full_array, o.partial)

  marked_prefix : take (c.buffer_length + 1) marked ≡ pending c ++ 0x80 ∷ []
  unfolding marked
  marked_prefix =
      take-overwrite c.buffer c.buffer_length (0x80 ∷ []) (omega (arith, o.full_array, o.partial))

  -- Zeros from the terminator up to `limit`.
  zeroed : ℕ → Bytes
  zeroed limit =
      overwrite marked (c.buffer_length + 1) (replicate (limit - (c.buffer_length + 1)) 0)

  module _ (limit : ℕ) (h : c.buffer_length + 1 ≤ limit) (k : limit ≤ block_size) where
    abbrev zeros : Bytes
    zeros = replicate (limit - (c.buffer_length + 1)) 0

    length-zeroed : length (zeroed limit) ≡ block_size
    unfolding zeroed
    length-zeroed =
        length-overwrite marked (c.buffer_length + 1) zeros
          (omega (arith, length-marked, length-replicate {A = ℕ} (limit - (c.buffer_length + 1)) 0))
        ∙ length-marked

    zeroed_prefix : take limit (zeroed limit) ≡ (pending c ++ 0x80 ∷ []) ++ zeros
    unfolding zeroed
    zeroed_prefix =
        let n = length-replicate {A = ℕ} (limit - (c.buffer_length + 1)) 0 in
        let reaches : c.buffer_length + 1 + length zeros ≡ limit = omega (arith, n) in
        subst (λ t. take t (zeroed limit) ≡ (pending c ++ 0x80 ∷ []) ++ zeros) reaches
          (prefix_grows marked (pending c ++ 0x80 ∷ []) zeros (c.buffer_length + 1)
            (omega (arith, length-append (pending c) (0x80 ∷ []), length-pending)) marked_prefix
            (omega (arith, length-marked, n)))

  abbrev bit_count : ℕ
  bit_count = c.byte_count * 8 % 2 ^ 64

  finalize_room :
      c.buffer_length + 1 ≤ 56
      → (sha256_finalize c).1 ≡ digest_of (compress c.state (store_count 8 0 bit_count (zeroed 56)))
  unfolding sha256_finalize zeroed marked
  finalize_room h = rw (le→not_ltb 56 (c.buffer_length + 1) h)

  spilled : Bytes
  spilled = overwrite (zeroed block_size) 0 (replicate 56 0)

  finalize_spill :
      56 < c.buffer_length + 1
      → (sha256_finalize c).1
        ≡ digest_of
            (compress (compress c.state (zeroed block_size)) (store_count 8 0 bit_count spilled))
  unfolding sha256_finalize spilled zeroed marked
  finalize_spill h = rw (lt→ltb 56 (c.buffer_length + 1) h)

  -- The bytes that the padding adds, in the two cases.
  abbrev room_tail : Bytes
  room_tail = 0x80 ∷ (replicate (56 - (c.buffer_length + 1)) 0 ++ count_bytes bit_count)

  abbrev first_tail : Bytes
  first_tail = 0x80 ∷ replicate (block_size - (c.buffer_length + 1)) 0

  abbrev second_tail : Bytes
  second_tail = replicate 56 0 ++ count_bytes bit_count

  room_block :
      c.buffer_length + 1 ≤ 56 → store_count 8 0 bit_count (zeroed 56) ≡ pending c ++ room_tail
  room_block h =
      store_count_lem bit_count (zeroed 56) (length-zeroed 56 h (omega arith))
      ∙ ap (λ t. t ++ count_bytes bit_count) (zeroed_prefix 56 h (omega arith))
      ∙ simp append_assoc

  fits : c.buffer_length + 1 ≤ block_size
  fits = omega (arith, o.partial)

  first_block : zeroed block_size ≡ pending c ++ first_tail
  first_block =
      sym (
        take-all block_size (zeroed block_size)
          (omega (arith, length-zeroed block_size fits (omega arith))))
      ∙ zeroed_prefix block_size fits (omega arith)
      ∙ simp append_assoc

  second_block : store_count 8 0 bit_count spilled ≡ second_tail
  unfolding spilled
  second_block =
      let whole = length-zeroed block_size fits (omega arith) in
      let room : 56 ≤ length (zeroed block_size) = omega (arith, whole) in
      store_count_lem bit_count spilled
        (length-overwrite (zeroed block_size) 0 (replicate 56 0) room ∙ whole)
      ∙ ap (λ t. t ++ count_bytes bit_count)
          (take-overwrite (zeroed block_size) 0 (replicate 56 0) room)

  -- The reference absorbs the same tails.
  length-room_tail : c.buffer_length + 1 ≤ 56 → length (pending c) + length room_tail ≡ block_size
  length-room_tail h =
      let n = 56 - (c.buffer_length + 1) in
      omega (
        arith,
        length-pending,
        length-append (replicate n 0) (count_bytes bit_count),
        length-replicate {A = ℕ} n 0,
      )

  length-first_tail : length (pending c) + length first_tail ≡ block_size
  length-first_tail =
      omega (
        arith,
        length-pending,
        fits,
        length-replicate {A = ℕ} (block_size - (c.buffer_length + 1)) 0,
      )

  absorb-room_tail :
      c.buffer_length + 1 ≤ 56 → (sha256_finalize c).1 ≡ digest_of (absorb (view c) room_tail).chain
  absorb-room_tail h =
      finalize_room h
      ∙ ap (λ t. digest_of (compress c.state t)) (room_block h)
      ∙ sym (
          ap (λ r. digest_of r.chain)
            (absorb_full c.state (pending c) room_tail (omega (arith, length-pending, o.partial))
              (length-room_tail h)))

  absorb_both_tails :
      56 < c.buffer_length + 1
      → (sha256_finalize c).1 ≡ digest_of (absorb (view c) (first_tail ++ second_tail)).chain
  absorb_both_tails h =
      let first = compress c.state (pending c ++ first_tail) in
      finalize_spill h
      ∙ ap (λ t. digest_of (compress (compress c.state t) (store_count 8 0 bit_count spilled)))
          first_block
      ∙ ap (λ t. digest_of (compress first t)) second_block
      ∙ sym (
          ap (λ r. digest_of r.chain) (absorb-append (view c) first_tail second_tail)
          ∙ ap (λ r. digest_of (absorb r second_tail).chain)
              (absorb_full c.state (pending c) first_tail (omega (arith, length-pending, o.partial))
                length-first_tail)
          ∙ ap (λ r. digest_of r.chain) (absorb_full first [] second_tail (omega arith) refl))

one_tail :
    (x z bits n : ℕ)
    → z ≡ x
    → bits ≡ n * 8
    → 0x80 ∷ (replicate x 0 ++ count_bytes bits) ≡ tail_of z n
one_tail x z bits n e e' = rw (e, e')

two_tails :
    (x z bits n : ℕ)
    → z ≡ x + 56
    → bits ≡ n * 8
    → (0x80 ∷ replicate x 0) ++ (replicate 56 0 ++ count_bytes bits) ≡ tail_of z n
two_tails x z bits n e e' =
    rw (e, e')
      (ap (λ t. 0x80 ∷ t)
        (sym (
          ap (λ t. t ++ count_bytes (n * 8)) (replicate-add x 56 0)
          ∙ append_assoc (replicate x 0) (replicate 56 0) (count_bytes (n * 8)))))

module _ (m : Bytes) (c : Context) (a : HasAbsorbed m c) where
  partial_length : c.buffer_length ≡ length m % block_size
  partial_length = omega (
    arith,
    length-pending c a.open_buffer,
    ap (λ (r : Absorber). length r.partial) a.same_view,
    length-absorb start m (omega arith),
  )

  exact_count : c.byte_count * 8 % 2 ^ 64 ≡ length m * 8
  exact_count = omega (arith, a.counted, a.bounded)

  abbrev zero_count : ℕ
  zero_count = (119 - length m % 64) % 64

  -- The early block and the last one spell the padding.
  finalize-absorb :
      (sha256_finalize c).1 ≡ digest_of (absorb (view c) (tail_of zero_count (length m))).chain
  finalize-absorb =
      let o = a.open_buffer in
      elim (lt-cases 56 (c.buffer_length + 1)) [
        | inl spill ↦
            absorb_both_tails c o spill
            ∙ ap (λ t. digest_of (absorb (view c) t).chain)
                (two_tails (block_size - (c.buffer_length + 1)) zero_count (bit_count c o)
                  (length m) (omega (arith, partial_length, o.partial)) exact_count)
        | inr room ↦
            absorb-room_tail c o room
            ∙ ap (λ t. digest_of (absorb (view c) t).chain)
                (one_tail (56 - (c.buffer_length + 1)) zero_count (bit_count c o) (length m)
                  (omega (arith, partial_length)) exact_count)
      ]

  -- Whole blocks.
  padded_blocks : length (padded m) ≡ length (padded m) / block_size * block_size
  padded_blocks =
      omega (
        arith,
        length-append m (tail_of zero_count (length m)),
        length-tail_of zero_count (length m),
      )

  -- The digest of a context that has absorbed `m` is the SHA-256 of `m`, whichever way the bytes
  -- came in.
  pub finalize-sha256 : (sha256_finalize c).1 ≡ sha256 m
  unfolding sha256
  finalize-sha256 =
      let tail = tail_of zero_count (length m) in
      finalize-absorb
      ∙ ap (λ r. digest_of (absorb r tail).chain) a.same_view
      ∙ sym (ap (λ r. digest_of r.chain) (absorb-append start m tail))
      ∙ ap (λ r. digest_of r.chain)
          (absorb-hash_blocks (length (padded m) / block_size) initial_chain (padded m)
            padded_blocks)
