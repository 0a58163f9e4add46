-- ===== src/Commons.antt =====
-- Commons: what the processes share.
pub mod Nipc
pub mod Queue
mod Tests
