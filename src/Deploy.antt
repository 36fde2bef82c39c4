-- ===== src/Deploy.antt =====
-- Smart Deploy (backend/internal/service/deploy).
pub mod Plan
pub mod Orchestrator
pub mod Pipeline
pub mod Deployer
pub mod Preset
