-- ===== src/Shell.antt =====
-- The programs of the shell, under shell/.
pub mod Editor
pub mod Snake
pub mod Stellash
