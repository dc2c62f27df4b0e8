-- ===== src/Hash/Context/Padding.antt =====
-- The padding of a message, and the last bytes that `sha256_finalize` stores.
use Prim.Native.Nat.add
use yaca.Base.{
  ℕ, zero, suc, ◌+◌, ◌-◌, ◌*◌, ◌/◌, ◌%◌, ◌^◌, ◌<◌, [], ◌∷◌, ◌++◌, ◌≡◌, refl, ap, sym, ◌∙◌, arith,
  Bytes, length, take, drop, replicate, length-append, length-replicate, length-drop, length-take,
  take-append-drop, lt-cases, inl, inr,
}
use yaca.Hash.Context.{overwrite, store_count, block_size}
use yaca.Hash.Context.Absorb.{Absorber, absorb, feed_room, feed_full}
use yaca.Hash.Compress.{compress}

-- A 64-bit number, its highest byte first.
abbrev pub count_bytes : ℕ → Bytes
count_bytes n =
    n / 2 ^ 56 % 256
    ∷ n / 2 ^ 48 % 256
    ∷ n / 2 ^ 40 % 256
    ∷ n / 2 ^ 32 % 256
    ∷ n / 2 ^ 24 % 256
    ∷ n / 2 ^ 16 % 256
    ∷ n / 2 ^ 8 % 256
    ∷ n % 256
    ∷ []

-- FIPS 180-4: a one bit, the fewest zeros that leave room for the count, and the count of bits.
abbrev pub tail_of : ℕ → ℕ → Bytes
tail_of zeros n = 0x80 ∷ (replicate zeros 0 ++ count_bytes (n * 8))

abbrev pub padded : Bytes → Bytes
padded m = m ++ tail_of ((119 - length m % 64) % 64) (length m)

pub length-tail_of : (zeros n : ℕ) → length (tail_of zeros n) ≡ zeros + 9
length-tail_of zeros n = omega (
  arith,
  length-append (replicate zeros 0) (count_bytes (n * 8)),
  length-replicate {A = ℕ} zeros 0,
)

overwrite_behind :
    (p q : Bytes) (k b : ℕ)
    → overwrite (p ++ q) (length p + k) (b ∷ []) ≡ p ++ overwrite q k (b ∷ [])
unfolding overwrite
overwrite_behind [] q k b = rw add.zero
overwrite_behind (x ∷ p) q k b = simp (add.suc, overwrite_behind p q k b)

overwrite_at :
    (p q : Bytes) (k i b : ℕ)
    → length p + k ≡ i
    → overwrite (p ++ q) i (b ∷ []) ≡ p ++ overwrite q k (b ∷ [])
overwrite_at p q k i b e = rw (← e) (overwrite_behind p q k b)

module _ (n : ℕ) where
  -- The same writes in the last eight bytes alone.
  store_last : ℕ → ℕ → Bytes → Bytes
  store_last zero index q = q
  store_last (suc left) index q =
      store_last left (index + 1) (overwrite q (7 - index) (n / 2 ^ (index * 8) % 256 ∷ []))

  store_count-append :
      (left index : ℕ) (p q : Bytes)
      → length p ≡ 56
      → index + left ≡ 8
      → store_count left index n (p ++ q) ≡ p ++ store_last left index q
  unfolding store_count store_last
  store_count-append zero index p q l e = refl
  store_count-append (suc left) index p q l e =
      rw (overwrite_at p q (7 - index) (63 - index) (n / 2 ^ (index * 8) % 256) (omega arith)) (
        store_count-append left (index + 1) p
          (overwrite q (7 - index) (n / 2 ^ (index * 8) % 256 ∷ [])) l (omega arith))

  store_last_lem : (q : Bytes) → length q ≡ 8 → store_last 8 0 q ≡ count_bytes n
  unfolding store_last overwrite
  store_last_lem (a ∷ b ∷ c ∷ d ∷ e ∷ f ∷ g ∷ h ∷ []) k =
      ap
        (λ t.
          n / 2 ^ 56 % 256
          ∷ n / 2 ^ 48 % 256
          ∷ n / 2 ^ 40 % 256
          ∷ n / 2 ^ 32 % 256
          ∷ n / 2 ^ 24 % 256
          ∷ n / 2 ^ 16 % 256
          ∷ n / 2 ^ 8 % 256
          ∷ t
          ∷ [])
        (omega arith)
  store_last_lem _ k = absurd (omega arith)

  pub store_count_lem :
      (buffer : Bytes)
      → length buffer ≡ block_size
      → store_count 8 0 n buffer ≡ take 56 buffer ++ count_bytes n
  store_count_lem buffer h =
      let front = take 56 buffer in
      let back = drop 56 buffer in
      ap (store_count 8 0 n) (sym (take-append-drop 56 buffer))
      ∙ store_count-append 8 0 front back (omega (arith, length-take 56 buffer)) refl
      ∙ ap (λ t. front ++ t) (store_last_lem back (omega (arith, length-drop 56 buffer)))

-- The partial block of a message holds what is left of it behind the whole blocks.
pub length-absorb :
    (r : Absorber) (bytes : Bytes)
    → length r.partial < block_size
    → length (absorb r bytes).partial ≡ (length r.partial + length bytes) % block_size
length-absorb r [] h = omega arith
length-absorb r (x ∷ bytes) h = elim (lt-cases (length r.partial + 1) block_size) [
  | inl room ↦
      ap (λ q. length (absorb q bytes).partial) (feed_room r.chain r.partial x room)
      ∙ length-absorb (record { chain = r.chain; partial = r.partial ++ x ∷ [] }) bytes
          (omega (arith, length-append r.partial (x ∷ [])))
      ∙ omega (arith, length-append r.partial (x ∷ []))
  | inr full ↦
      ap (λ q. length (absorb q bytes).partial) (feed_full r.chain r.partial x (omega arith))
      ∙ length-absorb (record { chain = compress r.chain (r.partial ++ x ∷ []); partial = [] })
          bytes (omega arith)
      ∙ omega arith
]
