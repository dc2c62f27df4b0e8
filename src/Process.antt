-- ===== src/Process.antt =====
-- The supervised child processes of native/yaca_native.c on POSIX systems, behind the Lua
-- userdata `yaca_process`.
pub mod State
pub mod Request
pub mod Start
pub mod Refresh
pub mod Poll
pub mod Calls
