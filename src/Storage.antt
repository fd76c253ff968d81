-- ===== src/Storage.antt =====
-- storage/*.py.
pub mod Tests
pub mod Tables
pub mod Owned
pub mod Repositories
pub mod Cache
pub mod Snapshots
