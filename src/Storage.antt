-- ===== src/Storage.antt =====
-- storage.h and storage.cpp: the table of disks and the partition scan.
pub mod Disk
pub mod FatKind
pub mod Scan
pub mod Mbr
pub mod Gpt
pub mod Table
pub mod Record
pub mod Bounds
pub mod Scans
pub mod Registry
pub mod Registration
pub mod Detected
mod Tests
