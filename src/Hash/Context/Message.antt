-- ===== src/Hash/Context/Message.antt =====
-- A context that has absorbed a message: `sha256_initialize` and `sha256_append`.
use yaca.Base.{
  ℕ, ◌+◌, ◌-◌, ◌%◌, ◌^◌, ◌≤◌, ◌<◌, [], ◌++◌, ◌≡◌, refl, ap, sym, ◌∙◌, arith, Bytes, length,
  length-append, le→not_ltb, lt→ltb, none, some, false,
}
use yaca.Hash.Context.{Context, sha256_initialize, sha256_append, initial_chain, append_loop, room}
use yaca.Hash.Context.Buffer.{IsOpen}
use yaca.Hash.Context.Absorb.{Absorber, absorb, absorb-append}
use yaca.Hash.Context.Rounds.{view, append_loop-Absorbs}

abbrev pub start : Absorber
start = record { chain = initial_chain; partial = [] }

-- The longest message: its number of bits must fit 64 bits.
abbrev pub message_limit : ℕ
message_limit = 2 ^ 61 - 1

pub record HasAbsorbed (message : Bytes) (c : Context) : Type 0 where
  pub open_buffer : IsOpen c
  pub same_view : view c ≡ absorb start message
  pub counted : c.byte_count ≡ length message
  pub bounded : length message ≤ message_limit
  pub still_open : c.closed ≡ false

-- A fresh context has absorbed the empty message.
pub initialize-HasAbsorbed : HasAbsorbed [] sha256_initialize
unfolding sha256_initialize
initialize-HasAbsorbed = record {
  open_buffer = record { full_array = refl; partial = omega arith };
  same_view = refl;
  counted = refl;
  bounded = omega arith;
  still_open = refl;
}

module _ (message bytes : Bytes) (c : Context) (a : HasAbsorbed message c) where
  room_lem : room c ≡ message_limit - length message
  room_lem = omega (arith, a.counted, a.bounded)

  -- Bytes that fit are absorbed behind the message.
  pub append-HasAbsorbed :
      length message + length bytes ≤ message_limit
      → (c' : Context) × (sha256_append c bytes ≡ some c') × HasAbsorbed (message ++ bytes) c'
  append-HasAbsorbed fits =
      let counted = record c { byte_count = (c.byte_count + length bytes) % 2 ^ 64 } in
      let c' = append_loop (length bytes) counted bytes in
      let loop =
        append_loop-Absorbs (length bytes) counted bytes
          (record { full_array = a.open_buffer.full_array; partial = a.open_buffer.partial })
          (omega arith) in
      (
        c',
        unfold sha256_append in rw (le→not_ltb (room c) (length bytes) (omega (arith, room_lem))),
        record {
          open_buffer = loop.stays_open;
          same_view =
              loop.absorbed
              ∙ ap (λ r. absorb r bytes) a.same_view
              ∙ sym (absorb-append start message bytes);
          counted = omega (arith, loop.same_count, a.counted, length-append message bytes);
          bounded = omega (arith, length-append message bytes);
          still_open = loop.same_closed ∙ a.still_open;
        },
      )

  -- Bytes that would make the bit count overflow are refused, and nothing is changed.
  pub append_overflow : message_limit < length message + length bytes → sha256_append c bytes ≡ none
  unfolding sha256_append
  append_overflow h = rw (lt→ltb (room c) (length bytes) (omega (arith, room_lem)))
