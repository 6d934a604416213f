-- ===== src/Supervisor/Manager.antt =====
-- internal/init/process.go: `ProcessManager`.
mod Heap
mod Methods
mod Status
mod Events
unfoldable pub use Heap.*
unfoldable pub use Methods.*
unfoldable pub use Status.*
unfoldable pub use Events.*
