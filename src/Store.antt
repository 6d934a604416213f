-- ===== src/Store.antt =====
-- internal/shared/state: the store of the control plane's state.
pub mod Disk
pub mod Projects
pub mod Records
pub mod Loading
pub mod Requests
pub mod Keeping
pub mod KeepingApps
pub mod Creating
pub mod Histories
pub mod Restart
pub mod Names
pub mod Uniqueness
pub mod Orphans
