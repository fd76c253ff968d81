-- ===== src/Nginx.antt =====
-- nginx/*.py.
pub mod Tests
pub mod Files
pub mod Apply
