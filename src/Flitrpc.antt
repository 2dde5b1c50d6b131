-- ===== src/Flitrpc.antt =====
-- server/flitrpc/flitrpc.go: frames on the wire, chunked messages, and the server's dispatch.
pub mod Sink
pub mod Frame
pub mod Chunk
pub mod Codec
pub mod Tiny
pub mod Message
pub mod Server
mod Tests
