-- ===== src/Libc.antt =====
-- The C library of the kernel, libc/string.c.
pub mod Str
pub mod Token
pub mod Number
