-- ===== src/Pkg.antt =====
-- The package manager, under pkg/.
pub mod Spk
