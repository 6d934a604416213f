-- ===== src/Supervisor.antt =====
-- internal/init/process.go: the supervisor of an app's processes inside a VM.
pub mod Process
pub mod Manager
pub mod Safety
pub mod Interleavings
pub mod Restarts
pub mod Stopping
