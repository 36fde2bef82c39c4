-- ===== src/Monitor.antt =====
-- The monitor service (backend/internal/service/monitor).
pub mod History
