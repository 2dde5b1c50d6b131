-- ===== src/PtyBridge.antt =====
-- server/cmd_pty_bridge.go: what the bridge does before it passes everything through: passwords, the
-- deployment of the server, and the signal that it is ready.
pub mod Junk
pub mod Auth
pub mod Waits
pub mod Deploys
pub mod Run
mod Tests
