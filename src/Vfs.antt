-- ===== src/Vfs.antt =====
-- vfs.cpp: the drive table, the drive letters and the dispatch of paths to the file system.
pub mod Drives
pub mod Mounted
mod Tests
