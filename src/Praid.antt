-- ===== src/Praid.antt =====
-- PRAID: the process between PFS and the disks, which mirrors writes and spreads reads.
pub mod Message
pub mod Requests
pub mod Disks
pub mod Clients
pub mod Service
mod Tests
