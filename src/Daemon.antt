-- ===== src/Daemon.antt =====
-- internal/observer/daemon: the endpoint's daemon above the local socket.
pub mod Registry
pub mod Consent
pub mod Fence
