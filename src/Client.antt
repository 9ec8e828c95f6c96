-- ===== src/Client.antt =====
-- The client library: how it asks the server, and what it does with what the server sends.
pub mod Numbers
pub mod Comm
pub mod Streams
pub mod Sources
pub mod Frames
pub mod Routing
