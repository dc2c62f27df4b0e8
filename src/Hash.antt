-- ===== src/Hash.antt =====
-- The incremental SHA-256 of native/yaca_native.c: the compression function, the context that
-- absorbs bytes, and the Lua userdata that owns a context.
pub mod Compress
pub mod Context
pub mod Owner
