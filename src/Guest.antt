-- ===== src/Guest.antt =====
-- internal/init: the agent inside a VM.
pub mod Message
pub mod Files
pub mod State
pub mod Logs
pub mod Executor
pub mod Transfer
pub mod Commands
pub mod Acting
pub mod Dispatch
pub mod LogPaths
pub mod Docker
pub mod Containers
pub mod Replacing
pub mod Serial
pub mod Listening
