-- ===== src/Compose.antt =====
-- internal/compose: docker-compose files become app specifications.
pub mod Substitute
pub mod Templates
pub mod EnvFile
pub mod Service
pub mod Fields
pub mod Parsing
pub mod Merging
pub mod Ports
