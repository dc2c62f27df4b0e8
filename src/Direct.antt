-- ===== src/Direct.antt =====
-- The direct operations on files of native/yaca_native.c on POSIX systems: each verifies the
-- identity of what it works on before and after it changes a directory.
pub mod Facts
pub mod System
pub mod Capture
pub mod Rules
pub mod Evidence
pub mod Directories
pub mod Replace
pub mod Rename
pub mod Effects
pub mod Operations
pub mod Delete
mod Examples
