-- ===== src/Tests.antt =====
-- Theorems applied to concrete stores, managers and agents.
mod Fixtures
mod StoreExamples
mod SupervisorExamples
mod GuestExamples
mod ComposeExamples
mod CommandExamples
mod ApiExamples
mod AgentExamples
mod LibvirtExamples
mod ReconcilerExamples
mod HandlerExamples
mod ManifestExamples
mod DockerExamples
