-- ===== src/Availability.antt =====
-- app/availability/domain: interval arithmetic, calendar blocks and the availability engine.
pub mod Intervals
pub mod Merge
pub mod Subtract
pub mod Intersect
pub mod Blocks
pub mod Engine
mod Tests
