-- ===== src/Hash/Owner.antt =====
-- The Lua functions over a `yaca_sha256` userdata in native/yaca_native.c: start, update, finish,
-- close and the finalizer. An argument of another type raises in `luaL_checkudata`,
-- `luaL_checklstring` before anything is touched, and is left out.
pub mod Laws
pub mod Refinement
mod Examples
use yaca.Base.{
  ℕ, Bool, true, false, Option, none, some, List, [], ◌∷◌, Bytes, replicate, if◌then◌else◌,
}
use yaca.Hash.Compress.{Chain}
use yaca.Hash.Context.{Context, block_size, sha256_initialize, sha256_append, sha256_finalize}

-- What a call gives to Lua: a value, or an error that it raises.
pub data Reply : Type 0 where
  acknowledged nothing : Reply
  digest : Bytes → Reply
  raised_closed raised_limit raised_memory : Reply

-- Lua's answer to the requests for memory in `l_sha256_finish`: the stack slots are refused, the
-- result string is refused, or both are given.
pub data Memory : Type 0 where
  no_stack no_string enough : Memory

abbrev pub zero_chain : Chain
zero_chain = record { a = 0; b = 0; c = 0; d = 0; e = 0; f = 0; g = 0; h = 0 }

-- `secure_zero(context, sizeof(*context))`
unfoldable pub secure_zero : Context
secure_zero = record {
  state = zero_chain;
  byte_count = 0;
  buffer = replicate block_size 0;
  buffer_length = 0;
  closed = false;
}

abbrev pub wiped : Context
unfolding secure_zero
wiped = record secure_zero { closed = true }

unfoldable pub l_sha256_start : Context
l_sha256_start = sha256_initialize

-- The call's two outcomes, by the result of `sha256_append`.
abbrev update_reply : Context → Option Context → Context × Reply
update_reply context none = (context, raised_limit)
update_reply context (some context') = (context', acknowledged)

unfoldable pub l_sha256_update : Context → Bytes → Context × Reply
l_sha256_update context bytes =
    if context.closed
    then (context, raised_closed)
    else update_reply context (sha256_append context bytes)

-- The digest is made from a copy, so a refused result leaves the owner as it was.
unfoldable pub l_sha256_finish : Memory → Context → Context × Reply
unfolding secure_zero
l_sha256_finish memory context =
    let published : Context × Reply = elim memory [
      | no_stack ↦ (context, raised_memory)
      | no_string ↦ (context, raised_memory)
      | enough ↦ (record secure_zero { closed = true }, digest (sha256_finalize context).1)
    ] in
    if context.closed then (context, raised_closed) else published

unfoldable pub l_sha256_close : Context → Context × Reply
unfolding secure_zero
l_sha256_close context =
    (if context.closed then context else record secure_zero { closed = true }, acknowledged)

unfoldable pub l_sha256_gc : Context → Context × Reply
unfolding secure_zero
l_sha256_gc context = (record secure_zero { closed = true }, nothing)

-- The calls that a script, or the collector, makes on one object.
pub data Call : Type 0 where
  update : Bytes → Call
  finish : Memory → Call
  close gc : Call

pub perform : Context → Call → Context × Reply
perform context (update bytes) = l_sha256_update context bytes
perform context (finish memory) = l_sha256_finish memory context
perform context close = l_sha256_close context
perform context gc = l_sha256_gc context

-- The replies to a sequence of calls.
pub replies : Context → List Call → List Reply
replies context [] = []
replies context (call ∷ calls) =
    let (context', reply) = perform context call in reply ∷ replies context' calls
