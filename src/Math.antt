-- ===== src/Math.antt =====
-- crates/leaseflow_math/src/lib.rs.
pub mod Calendar
pub mod MonthSeconds
pub mod Proration
pub mod FirstMonth
mod Examples
