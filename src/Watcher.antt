-- ===== src/Watcher.antt =====
-- cmd/apiserver-watcher/run.go: the health tracker and the handler that marks the addresses of the
-- API server up or down.
pub mod Tracker
