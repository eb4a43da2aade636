-- ===== src/Drivers.antt =====
-- The device drivers, under drivers/.
pub mod Vga
pub mod Keyboard
pub mod Ata
