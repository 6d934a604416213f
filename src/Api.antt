-- ===== src/Api.antt =====
-- internal/api and internal/proxy: the routes of apps, and the updates of apps and projects.
pub mod Routes
pub mod Reconciling
pub mod Listing
pub mod Apps
pub mod Updates
pub mod Projects
pub mod Resizing
pub mod Replies
pub mod Lifecycle
pub mod Creation
pub mod Logs
pub mod Domains
pub mod Environments
pub mod Nodes
pub mod Deploying
pub mod Uploads
pub mod Waiting
pub mod Stored
pub mod Stopping
pub mod Undone
pub mod Removing
pub mod Revealing
pub mod Secrets
pub mod Registering
pub mod Serving
