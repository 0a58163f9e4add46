-- ===== src/Pfs.antt =====
-- PFS: the file system process.
pub mod BootSector
pub mod Fat
pub mod FileCache
pub mod Cluster
pub mod DirEntry
pub mod LfnEntry
pub mod FilePath
pub mod Comm
pub mod Volume
pub mod Truncate
pub mod FileEntry
pub mod Directory
pub mod Lookup
pub mod Files
pub mod Rename
pub mod Attributes
pub mod Span
pub mod FileIo
pub mod FileWrite
pub mod Fuse
mod Tests
