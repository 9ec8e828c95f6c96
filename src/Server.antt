-- ===== src/Server.antt =====
-- The objects of the server: clients, their streams, and the sources that streams show. The
-- definitions follow server/client.c, server/source.c, server/stream.c and the structs of
-- server/include/svrd.
pub mod State
pub mod Streams
pub mod Words
pub mod Sources
pub mod Clients
pub mod Handlers
pub mod SourceHandlers
pub mod Requests
pub mod Routing
pub mod Table
pub mod Worker
