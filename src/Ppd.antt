-- ===== src/Ppd.antt =====
-- PPD: the disk process.
pub mod Geometry
pub mod Taker
pub mod Queues
pub mod Scan
pub mod Translate
pub mod Io
pub mod Service
mod Tests
