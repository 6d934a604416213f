-- ===== src/Entities.antt =====
-- pkg/domain/entities: the data that the components share.
pub mod Name
pub mod Components
pub mod Resources
pub mod App
pub mod Project
pub mod Instance
pub mod LocalState
