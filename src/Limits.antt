-- ===== src/Limits.antt =====
-- Usage limits: limits/policy.ts (windows), limits/store.ts (counters), limits/flags.ts (the kill
-- switch). Times are milliseconds since 1970.
pub mod Calendar
pub mod Policy
pub mod Counters
pub mod Flags
mod Tests
