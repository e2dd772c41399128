-- ===== src/Daemon.antt =====
-- internal/daemon: the state that the daemon's goroutines share.
pub mod InFlight
pub mod Backoff
