-- ===== src/Lib.antt =====
-- SVR, the Seawolf Video Router: a server that passes video from sources to the streams of its
-- clients, and the library that clients and server share.
--
-- The parts, from the wire up:
--   Pack             lib/pack.c            bytes and numbers in network order
--   Message          lib/message.c         messages and their packed form
--   Net              lib/net.c             messages over a stream socket
--   Encoder          lib/encoding.c        the buffer between an encoder and its reader, and the loop
--                                          that sends what it holds (Encoder.Chunks)
--   Decoder          lib/encoding.c        the frames that decoded bytes fill
--   Encodings        lib/encoding.c, lib/encodings/raw.c the registry, and the raw encoding
--   OptionString     lib/optionstring.c    descriptors of encodings and sources
--   FrameProperties  lib/frameproperties.c sizes, depth and channels, and their text
--   Server.State     server/include/svrd   clients, streams and sources as records
--   Server.Streams   server/stream.c       the operations on a stream
--   Server.Sources   server/source.c       the registered sources
--   Server.Clients   server/client.c       what a client holds, replies, closing
--   Server.Handlers, Server.SourceHandlers server/messagehandlers.c
--   Server.Requests, Server.Routing, Server.Table server/messagerouting.c
--   Server.Worker    server/stream.c       what the worker of a stream does with a frame
--   ResponseSet      lib/responseset.c     the requests that await a response
--   BlockAlloc       lib/blockalloc.c      blocks of one size
--   Arena            lib/mempool.c         the memory of a message
--   RefCount         lib/refcount.c        reference counters and their collector
--   Client.Comm      lib/comm.c            requests, responses and the receiving thread
--   Client.Streams, Client.Frames lib/stream.c the client's streams: requests, and data that arrives
--   Client.Sources   lib/source.c          the client's sources
--   Client.Routing   lib/messagerouting.c, lib/messagehandlers.c messages that answer no request
-- Words holds the strings that these send, Client.Numbers the "%d" of the client. Two modules put the
-- parts together: Client.Streams.Serve answers a client's request by the server's handlers, and
-- Delivery follows a frame from the server's encoder to the client's stream.
-- Base holds what they share: the library's names, lists and memory on native numbers, and in
-- Base.Dict the dictionaries of libseawolf as an interface with laws; Tests holds concrete runs and
-- an association list that satisfies the interface.
--
-- A client sends a message (Message) over its connection (Net); the server looks up the handler
-- (Server.Routing), which works on the client's streams and sources and replies; the client waits for the
-- reply with the id of its request (ResponseSet, Client.Comm). A stream that runs has an encoder, whose
-- output waits in the buffer of Encoder until it is sent in Data messages (Server.Worker); at the client
-- they go to the stream's decoder (Client.Routing, Client.Frames, Decoder), and the newest frame is
-- kept for the program.
--
-- How the code is read. Numbers are ℕ with the wrap-around of their C type written out. Memory is a
-- list of bytes, and an access outside it, like the use of a NULL pointer, is `none`. Content that C
-- leaves undefined comes from a parameter `fresh`. The kernel's side of `send` and `recv` is a list of
-- answers, over which the loops recur. The other loops are on fuel, or over the list that they use up. The
-- fuel is one more than the length of the string for the option parser, whose rounds take a character
-- each; one more than the number for the digits of `sprintf`; the size of a response set and two, as a
-- search passes each slot once and may go on in a new part; the chunks of an allocator and one, though
-- the second round already fails; and one more than the bytes to be written to a decoder, or read from
-- an encoder, as each round moves one at least. That the fuel is enough is part of the theorems. An operation
-- under a lock is one step. A stream belongs to one client and stands in its dictionary; sources are
-- shared, and stand in a store under their index. The handlers work on one world, of the client that
-- asks, the sources and the encodings. `SVRD_SourceType.open` is a parameter of the opening of a
-- source, as the types of source are device programs.
--
-- What stands outside the repository is a parameter: `create_image` is OpenCV's `cvCreateImage`,
-- `resize_into` and `convert_into` its conversions, `jpeg_decode` the decoder of lib/encodings/jpeg.c, which is
-- libjpeg's; `ask_server` is the answer of the server, for which Client.Streams.Serve puts the server's model.
--
-- Not modelled: threads as such, and the hand-over of frames from a source to the workers of its streams
-- (SVRD_Source_getFrame); the jpeg encoding; the cleanup of sources and clients whose count is 0; sockets, signals and the start of server and library; the sources under
-- server/sources, which are device programs; tools, bindings, locks as such and logging.
pub mod Base
pub mod Pack
pub mod Message
pub mod Net
pub mod Encoder
pub mod OptionString
pub mod FrameProperties
pub mod Server
pub mod Tests
pub mod ResponseSet
pub mod BlockAlloc
pub mod Arena
pub mod Decoder
pub mod Client
pub mod Encodings
pub mod Words
pub mod Delivery
pub mod RefCount
