-- ===== src/Kernel.antt =====
-- The kernel's own parts, under kernel/.
pub mod Sched
pub mod Frames
pub mod Installer
pub mod Login
pub mod Syscall
pub mod Heap
pub mod Boot
pub mod Idt
pub mod Elf
