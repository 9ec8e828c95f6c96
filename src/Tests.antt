-- ===== src/Tests.antt =====
-- Tests, and the theorems applied at concrete inputs.
mod Association
mod Wire
mod Ring
mod Options
mod Server
mod Leaks
mod Routing
mod Frames
mod Memory
mod Client
mod Worker
