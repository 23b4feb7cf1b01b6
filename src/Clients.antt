-- ===== src/Clients.antt =====
-- Where a request comes from: clientIp.ts, and the burst limits of limits/middleware.ts.
pub mod Address
pub mod Forwarded
pub mod Prefix
pub mod Burst
mod Tests
