-- ===== src/Fat32.antt =====
-- fat32.cpp: the read-only FAT32 driver.
pub mod Names
pub mod LongName
pub mod FilePath
pub mod Volume
pub mod Directory
pub mod Listing
pub mod FileRead
pub mod Mount
pub mod Compare
pub mod Truncation
pub mod Contents
pub mod Walks
pub mod Components
mod Tests
