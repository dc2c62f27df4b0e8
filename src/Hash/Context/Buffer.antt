-- ===== src/Hash/Context/Buffer.antt =====
-- The partial block: what `memcpy` and `memset` leave in the buffer, and the invariant of a context
-- between two calls.
use yaca.Base.{
  ℕ, ◌+◌, ◌≤◌, ◌<◌, ◌++◌, append_assoc, ◌≡◌, ◌∙◌, arith, Bytes, length, take, drop, length-append,
  length-take, length-drop, take_append_left, take-all,
}
use yaca.Hash.Context.{Context, overwrite, block_size}

pub record IsOpen (context : Context) : Type 0 where
  pub full_array : length context.buffer ≡ block_size
  pub partial : context.buffer_length < block_size

-- The bytes of the partial block.
abbrev pub pending : Context → Bytes
pending context = take context.buffer_length context.buffer

module _ (buffer : Bytes) (offset : ℕ) (bytes : Bytes)
    (fits : offset + length bytes ≤ length buffer) where
  length_prefix : length (take offset buffer ++ bytes) ≡ offset + length bytes
  length_prefix = omega (arith, length-append (take offset buffer) bytes, length-take offset buffer)

  pub length-overwrite : length (overwrite buffer offset bytes) ≡ length buffer
  unfolding overwrite
  length-overwrite = rw (← append_assoc) omega (
    arith,
    length_prefix,
    length-append (take offset buffer ++ bytes) (drop (offset + length bytes) buffer),
    length-drop (offset + length bytes) buffer,
  )

  pub take-overwrite :
      take (offset + length bytes) (overwrite buffer offset bytes) ≡ take offset buffer ++ bytes
  unfolding overwrite
  take-overwrite = rw (← append_assoc) (
      take_append_left (offset + length bytes) (take offset buffer ++ bytes)
        (drop (offset + length bytes) buffer) (omega (arith, length_prefix))
      ∙ take-all (offset + length bytes) (take offset buffer ++ bytes)
          (omega (arith, length_prefix)))
