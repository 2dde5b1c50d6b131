-- ===== src/Handlers.antt =====
-- server/server/jsonrpc.go: the handlers that registerHandlers registers, the life of a Server, and its
-- connections.
pub mod Files
pub mod Init
pub mod Lifetime
pub mod Echo
pub mod App
pub mod Protocol
pub mod Answers
pub mod FileMethods
pub mod Register
pub mod Connection
mod Tests
