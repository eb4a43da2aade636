-- ===== src/Fs.antt =====
-- The file systems, under fs/.
pub mod Ram
pub mod Device
pub mod Disk
