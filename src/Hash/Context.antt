-- ===== src/Hash/Context.antt =====
-- `yaca_sha256`, `sha256_initialize`, `sha256_append` and `sha256_finalize` of
-- native/yaca_native.c. `size_t` and `uint64_t` have 64 bits.
pub mod Buffer
pub mod Absorb
pub mod Rounds
pub mod Message
pub mod Padding
pub mod Digest
mod Examples
use yaca.Base.{
  ℕ, zero, suc, ◌+◌, ◌-◌, ◌*◌, ◌/◌, ◌%◌, ◌^◌, Bool, true, false, ◌&&◌, Option, none, some, [], ◌∷◌,
  ◌++◌, ◌≡◌, refl, Bytes, length, take, drop, replicate, ltb, leb, ◌==◌, if◌then◌else◌, codes,
}
use mathlib.Core.Option
use yaca.Hash.Compress.{Chain, compress}

pub record Context : Type 0 where
  pub state : Chain
  pub byte_count : ℕ
  pub buffer : Bytes
  pub buffer_length : ℕ
  pub closed : Bool

abbrev pub block_size : ℕ
block_size = 64

-- `memcpy(buffer + offset, bytes, length)`, and `memset` with equal bytes.
unfoldable pub overwrite : Bytes → ℕ → Bytes → Bytes
overwrite buffer offset bytes = take offset buffer ++ (bytes ++ drop (offset + length bytes) buffer)

unfoldable pub sha256_transform : Context → Bytes → Context
sha256_transform context block = record context { state = compress context.state block }

abbrev pub initial_chain : Chain
initial_chain = record {
  a = 0x6a09e667;
  b = 0xbb67ae85;
  c = 0x3c6ef372;
  d = 0xa54ff53a;
  e = 0x510e527f;
  f = 0x9b05688c;
  g = 0x1f83d9ab;
  h = 0x5be0cd19;
}

unfoldable pub sha256_initialize : Context
sha256_initialize = record {
  state = initial_chain;
  byte_count = 0;
  buffer = replicate block_size 0;
  buffer_length = 0;
  closed = false;
}

-- One round of the `while (length > 0)` loop: the context and the bytes left.
pub append_round : Context → Bytes → Context × Bytes
unfolding sha256_transform overwrite
append_round context bytes =
    let available = block_size - context.buffer_length in
    let copied = if ltb (length bytes) available then length bytes else available in
    let filled = record context {
      buffer = overwrite context.buffer context.buffer_length (take copied bytes);
      buffer_length = context.buffer_length + copied;
    } in
    if (context.buffer_length == 0) && leb block_size (length bytes)
    then (sha256_transform context (take block_size bytes), drop block_size bytes)
    else if filled.buffer_length == block_size
    then (record (sha256_transform filled filled.buffer) { buffer_length = 0 }, drop copied bytes)
    else (filled, drop copied bytes)

-- The loop. Each round takes at least one byte, so the number of bytes is fuel enough.
pub append_loop : ℕ → Context → Bytes → Context
append_loop fuel context [] = context
append_loop zero context (byte ∷ bytes) = context
append_loop (suc fuel) context (byte ∷ bytes) =
    let (context', rest) = append_round context (byte ∷ bytes) in append_loop fuel context' rest

-- `UINT64_MAX / 8U - context->byte_count`, a subtraction of `uint64_t`.
abbrev pub room : Context → ℕ
room context = (2 ^ 61 - 1 + 2 ^ 64 - context.byte_count) % 2 ^ 64

-- `none` is the result 0.
unfoldable pub sha256_append : Context → Bytes → Option Context
unfolding append_round append_loop
sha256_append context bytes =
    let counted = record context { byte_count = (context.byte_count + length bytes) % 2 ^ 64 } in
    if ltb (room context) (length bytes)
    then none
    else some (append_loop (length bytes) counted bytes)

-- The loop that stores the bit count in the last eight bytes, `left` rounds before its end.
pub store_count : ℕ → ℕ → ℕ → Bytes → Bytes
store_count zero index bit_count buffer = buffer
store_count (suc left) index bit_count buffer =
    store_count left (index + 1) bit_count
      (overwrite buffer (63 - index) (bit_count / 2 ^ (index * 8) % 256 ∷ []))

abbrev big_endian : ℕ → Bytes
big_endian w = w / 2 ^ 24 % 256 ∷ w / 2 ^ 16 % 256 ∷ w / 2 ^ 8 % 256 ∷ w % 256 ∷ []

unfoldable pub digest_of : Chain → Bytes
digest_of s =
    big_endian s.a
    ++ (big_endian s.b
        ++ (big_endian s.c
            ++ (big_endian s.d
                ++ (big_endian s.e ++ (big_endian s.f ++ (big_endian s.g ++ big_endian s.h))))))

-- The terminator, and the block that is compressed early when the count does not fit behind it.
pub terminate : Context → Context
unfolding sha256_transform overwrite
terminate context =
    let marked = record context {
      buffer = overwrite context.buffer context.buffer_length (0x80 ∷ []);
      buffer_length = context.buffer_length + 1;
    } in
    let zeroed = record marked {
      buffer =
          overwrite marked.buffer marked.buffer_length
            (replicate (block_size - marked.buffer_length) 0);
    } in
    if ltb 56 marked.buffer_length
    then record (sha256_transform zeroed zeroed.buffer) { buffer_length = 0 }
    else marked

unfoldable pub sha256_finalize : Context → Context × Bytes
unfolding terminate store_count sha256_transform overwrite digest_of
sha256_finalize context =
    let bit_count = context.byte_count * 8 % 2 ^ 64 in
    let open_block = terminate context in
    let zeroed =
      overwrite open_block.buffer open_block.buffer_length
        (replicate (56 - open_block.buffer_length) 0) in
    let full = record open_block { buffer = store_count 8 0 bit_count zeroed } in
    let final = sha256_transform full full.buffer in (final, digest_of final.state)
