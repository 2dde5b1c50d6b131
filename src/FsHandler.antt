-- ===== src/FsHandler.antt =====
-- server/fs/handler.go: the handlers of the fs/* requests. The operating system is a record of
-- operations on a state; the decoding of params is an argument, a `Result`. Log output is left out.
pub mod Os
pub mod Io
pub mod Types
pub mod Stat
pub mod Info
pub mod Write
pub mod Files
pub mod Batch
pub mod CopyDir
pub mod Keeps
pub mod Yields
pub mod Total
pub mod Memory
mod Tests
