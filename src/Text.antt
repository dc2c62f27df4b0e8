-- ===== src/Text.antt =====
-- The text module of the native library (native/yaca_text.h), with the UTF-8 encoder that the
-- terminal's key decoder uses (native/yaca_native.c).
pub mod Utf8
