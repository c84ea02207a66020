-- ===== src/Vfat.antt =====
-- The FAT32 file system of task3_vfat/vfat.c.
pub mod Bytes
pub mod Layout
pub mod Sample
pub mod Init
pub mod Names
pub mod Chain
pub mod Read
pub mod Directory
pub mod Resolve
pub mod Listing
pub mod Mount
