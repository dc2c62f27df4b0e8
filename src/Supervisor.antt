-- ===== src/Supervisor.antt =====
-- The subreaper of native/yaca_supervisor.h, which runs a command and ends with all descendants.
pub mod Children
pub mod Message
pub mod Rounds
mod Examples
