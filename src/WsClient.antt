-- ===== src/WsClient.antt =====
-- Talking to a node: crates/freenet-git/src/wsclient.rs.
pub mod Host
pub mod Probe
pub mod Failure
pub mod Retry
