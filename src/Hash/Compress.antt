-- ===== src/Hash/Compress.antt =====
-- `sha256_rotate_right`, the constants and `sha256_transform` of native/yaca_native.c. A `uint32_t`
-- is a number below 2 ^ 32, and each sum of the source wraps there.
use Prim.Native.Nat.{bit_and, bit_or, bit_xor}
use yaca.Base.{ℕ, zero, suc, ◌+◌, ◌-◌, ◌*◌, ◌/◌, ◌%◌, ◌^◌, List, [], ◌∷◌, ◌++◌, Bytes, get_or}

abbrev pub u32 : ℕ → ℕ
u32 n = n % 2 ^ 32

-- `~value`
abbrev pub complement : ℕ → ℕ
complement value = 2 ^ 32 - 1 - value

unfoldable pub sha256_rotate_right : ℕ → ℕ → ℕ
sha256_rotate_right value count = bit_or (value / 2 ^ count) (u32 (value * 2 ^ (32 - count)))

-- `uint32_t state[8]`, and the eight working variables of the compression.
pub record Chain : Type 0 where
  pub a : ℕ
  pub b : ℕ
  pub c : ℕ
  pub d : ℕ
  pub e : ℕ
  pub f : ℕ
  pub g : ℕ
  pub h : ℕ

abbrev pub yaca_sha256_constants : List ℕ
yaca_sha256_constants =
    0x428a2f98 ∷ 0x71374491 ∷ 0xb5c0fbcf ∷ 0xe9b5dba5 ∷ 0x3956c25b ∷ 0x59f111f1 ∷ 0x923f82a4
    ∷ 0xab1c5ed5 ∷ 0xd807aa98 ∷ 0x12835b01 ∷ 0x243185be ∷ 0x550c7dc3 ∷ 0x72be5d74 ∷ 0x80deb1fe
    ∷ 0x9bdc06a7 ∷ 0xc19bf174 ∷ 0xe49b69c1 ∷ 0xefbe4786 ∷ 0x0fc19dc6 ∷ 0x240ca1cc ∷ 0x2de92c6f
    ∷ 0x4a7484aa ∷ 0x5cb0a9dc ∷ 0x76f988da ∷ 0x983e5152 ∷ 0xa831c66d ∷ 0xb00327c8 ∷ 0xbf597fc7
    ∷ 0xc6e00bf3 ∷ 0xd5a79147 ∷ 0x06ca6351 ∷ 0x14292967 ∷ 0x27b70a85 ∷ 0x2e1b2138 ∷ 0x4d2c6dfc
    ∷ 0x53380d13 ∷ 0x650a7354 ∷ 0x766a0abb ∷ 0x81c2c92e ∷ 0x92722c85 ∷ 0xa2bfe8a1 ∷ 0xa81a664b
    ∷ 0xc24b8b70 ∷ 0xc76c51a3 ∷ 0xd192e819 ∷ 0xd6990624 ∷ 0xf40e3585 ∷ 0x106aa070 ∷ 0x19a4c116
    ∷ 0x1e376c08 ∷ 0x2748774c ∷ 0x34b0bcb5 ∷ 0x391c0cb3 ∷ 0x4ed8aa4a ∷ 0x5b9cca4f ∷ 0x682e6ff3
    ∷ 0x748f82ee ∷ 0x78a5636f ∷ 0x84c87814 ∷ 0x8cc70208 ∷ 0x90befffa ∷ 0xa4506ceb ∷ 0xbef9a3f7
    ∷ 0xc67178f2 ∷ []

-- `words[index]` for the first sixteen: four bytes of the block, the highest first.
block_word : Bytes → ℕ → ℕ
block_word block index =
    let offset = index * 4 in
    bit_or
      (bit_or (bit_or (get_or block offset 0 * 2 ^ 24) (get_or block (offset + 1) 0 * 2 ^ 16))
        (get_or block (offset + 2) 0 * 2 ^ 8))
      (get_or block (offset + 3) 0)

block_words : ℕ → ℕ → Bytes → List ℕ
block_words zero index block = []
block_words (suc left) index block = block_word block index ∷ block_words left (index + 1) block

-- `words[index]` for the other forty-eight, from the words before it.
schedule_word : List ℕ → ℕ → ℕ
unfolding sha256_rotate_right
schedule_word words index =
    let early = get_or words (index - 15) 0 in
    let late = get_or words (index - 2) 0 in
    let lower =
      bit_xor (bit_xor (sha256_rotate_right early 7) (sha256_rotate_right early 18))
        (early / 2 ^ 3) in
    let upper =
      bit_xor (bit_xor (sha256_rotate_right late 17) (sha256_rotate_right late 19))
        (late / 2 ^ 10) in
    u32 (get_or words (index - 16) 0 + lower + get_or words (index - 7) 0 + upper)

-- The array is filled from the front, so the words so far are a list that grows at its end.
extend_words : ℕ → ℕ → List ℕ → List ℕ
extend_words zero index words = words
extend_words (suc left) index words =
    extend_words left (index + 1) (words ++ schedule_word words index ∷ [])

schedule : Bytes → List ℕ
schedule block = extend_words 48 16 (block_words 16 0 block)

-- One round of the third loop, with its constant and its word.
compress_round : ℕ → ℕ → Chain → Chain
unfolding sha256_rotate_right
compress_round constant word v =
    let sum_e =
      bit_xor (bit_xor (sha256_rotate_right v.e 6) (sha256_rotate_right v.e 11))
        (sha256_rotate_right v.e 25) in
    let choice = bit_xor (bit_and v.e v.f) (bit_and (complement v.e) v.g) in
    let first = u32 (v.h + sum_e + choice + constant + word) in
    let sum_a =
      bit_xor (bit_xor (sha256_rotate_right v.a 2) (sha256_rotate_right v.a 13))
        (sha256_rotate_right v.a 22) in
    let majority = bit_xor (bit_xor (bit_and v.a v.b) (bit_and v.a v.c)) (bit_and v.b v.c) in
    let second = u32 (sum_a + majority) in
    record {
      a = u32 (first + second);
      b = v.a;
      c = v.b;
      d = v.c;
      e = u32 (v.d + first);
      f = v.e;
      g = v.f;
      h = v.g;
    }

compress_rounds : List ℕ → List ℕ → Chain → Chain
compress_rounds [] words v = v
compress_rounds (k ∷ ks) [] v = v
compress_rounds (k ∷ ks) (w ∷ words) v = compress_rounds ks words (compress_round k w v)

add_chain : Chain → Chain → Chain
add_chain s v = record {
  a = u32 (s.a + v.a);
  b = u32 (s.b + v.b);
  c = u32 (s.c + v.c);
  d = u32 (s.d + v.d);
  e = u32 (s.e + v.e);
  f = u32 (s.f + v.f);
  g = u32 (s.g + v.g);
  h = u32 (s.h + v.h);
}

-- What `sha256_transform` does to `context->state`.
unfoldable pub compress : Chain → Bytes → Chain
unfolding block_word block_words schedule_word extend_words schedule compress_round compress_rounds
    add_chain
compress s block = add_chain s (compress_rounds yaca_sha256_constants (schedule block) s)
