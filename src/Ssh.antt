-- ===== src/Ssh.antt =====
-- crates/ssh
pub mod KnownHosts
pub mod Tunnel
pub mod Session
