-- ===== src/Notices.antt =====
-- server/server/jsonrpc.go: what a Session sends to its client when files change, and what it fetches
-- ahead. A goroutine that is started runs here to its end where it is started, and a map is ranged
-- over in the order of its list. Log output and contexts are left out.
pub mod World
pub mod Changes
pub mod Prefetch
pub mod Pending
pub mod Ends
pub mod Once
mod Tests
