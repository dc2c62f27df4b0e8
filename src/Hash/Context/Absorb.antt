-- ===== src/Hash/Context/Absorb.antt =====
-- The reference: a chain and a partial block that take one byte at a time, and whole blocks.
use yaca.Base.{
  ℕ, zero, suc, ◌+◌, ◌*◌, ◌<◌, [], ◌∷◌, ◌++◌, append_assoc, append-nil, ◌≡◌, refl, ap, sym, ◌∙◌,
  arith, Bytes, length, take, drop, length-append, length-take, length-drop, take-append-drop, ◌==◌,
  if◌then◌else◌,
}
use yaca.Hash.Compress.{Chain, compress}
use yaca.Hash.Context.{block_size}

pub record Absorber : Type 0 where
  pub chain : Chain
  pub partial : Bytes

-- One byte: it goes behind the partial block, which is compressed once it is full.
pub feed : Absorber → ℕ → Absorber
feed r byte =
    let grown = r.partial ++ byte ∷ [] in
    if length grown == block_size
    then record { chain = compress r.chain grown; partial = [] }
    else record { chain = r.chain; partial = grown }

abbrev pub absorb : Absorber → Bytes → Absorber
absorb r [] = r
absorb r (byte ∷ bytes) = absorb (feed r byte) bytes

-- The chain after `n` whole blocks.
abbrev pub hash_blocks : ℕ → Chain → Bytes → Chain
hash_blocks zero s bytes = s
hash_blocks (suc n) s bytes =
    hash_blocks n (compress s (take block_size bytes)) (drop block_size bytes)

pub absorb-append : (r : Absorber) (xs ys : Bytes) → absorb r (xs ++ ys) ≡ absorb (absorb r xs) ys
absorb-append r [] ys = refl
absorb-append r (x ∷ xs) ys = absorb-append (feed r x) xs ys

module _ (s : Chain) where
  length_grown : (p : Bytes) (x : ℕ) → length (p ++ x ∷ []) ≡ length p + 1
  length_grown p x = omega (arith, length-append p (x ∷ []))

  pub feed_room :
      (p : Bytes) (x : ℕ)
      → length p + 1 < block_size
      → feed (record { chain = s; partial = p }) x ≡ record { chain = s; partial = p ++ x ∷ [] }
  unfolding feed
  feed_room p x h = ground (arith, length_grown p x)

  pub feed_full :
      (p : Bytes) (x : ℕ)
      → length p + 1 ≡ block_size
      → feed (record { chain = s; partial = p }) x
        ≡ record { chain = compress s (p ++ x ∷ []); partial = [] }
  unfolding feed
  feed_full p x h = ground (arith, length_grown p x)

  -- Bytes that do not fill the block only grow it.
  pub absorb_room :
      (p xs : Bytes)
      → length p + length xs < block_size
      → absorb (record { chain = s; partial = p }) xs ≡ record { chain = s; partial = p ++ xs }
  absorb_room p [] h = rw append-nil
  absorb_room p (x ∷ xs) h = rw (feed_room p x (omega arith)) (
      absorb_room (p ++ x ∷ []) xs (omega (arith, length_grown p x))
      ∙ ap (λ t. record { chain = s; partial = t }) (append_assoc p (x ∷ []) xs))

  -- Bytes that fill it exactly compress it.
  pub absorb_full :
      (p xs : Bytes)
      → length p < block_size
      → length p + length xs ≡ block_size
      → absorb (record { chain = s; partial = p }) xs
        ≡ record { chain = compress s (p ++ xs); partial = [] }
  absorb_full p [] h k = absurd (omega arith)
  absorb_full p (x ∷ []) h k = feed_full p x k
  absorb_full p (x ∷ y ∷ xs) h k = rw (feed_room p x (omega arith)) (
      absorb_full (p ++ x ∷ []) (y ∷ xs) (omega (arith, length_grown p x))
        (omega (arith, length_grown p x))
      ∙ ap (λ t. record { chain = compress s t; partial = [] }) (append_assoc p (x ∷ []) (y ∷ xs)))

-- Whole blocks go through the compression one after the other, and leave no partial block.
pub absorb-hash_blocks :
    (n : ℕ) (s : Chain) (m : Bytes)
    → length m ≡ n * block_size
    → absorb (record { chain = s; partial = [] }) m
      ≡ record { chain = hash_blocks n s m; partial = [] }
absorb-hash_blocks zero s [] h = refl
absorb-hash_blocks zero s (x ∷ m) h = absurd (omega arith)
absorb-hash_blocks (suc n) s m h =
    let front = take block_size m in
    let back = drop block_size m in
    ap (absorb (record { chain = s; partial = [] })) (sym (take-append-drop block_size m))
    ∙ absorb-append (record { chain = s; partial = [] }) front back
    ∙ ap (λ r. absorb r back)
        (absorb_full s [] front (omega arith) (omega (arith, length-take block_size m)))
    ∙ absorb-hash_blocks n (compress s front) back (omega (arith, length-drop block_size m))
