-- ===== src/Windows.antt =====
-- The Windows side of the native library (native/yaca_native.c) that is modelled.
pub mod Arguments
