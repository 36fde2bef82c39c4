-- ===== src/Proxy.antt =====
-- The proxy service (backend/internal/service/proxy).
pub mod Identity
pub mod RingBuffer
pub mod Runtime
