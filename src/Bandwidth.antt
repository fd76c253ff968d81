-- ===== src/Bandwidth.antt =====
-- bandwidth.py.
pub mod Tests
pub mod Schedule
pub mod Bucket
pub mod Budget
