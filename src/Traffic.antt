-- ===== src/Traffic.antt =====
-- Traffic accounting (backend/internal/service/traffic).
pub mod Delta
pub mod Accountant
pub mod Xray
mod Tests
pub mod Clash
pub mod Egress
pub mod Rollup
