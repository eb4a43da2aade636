-- ===== src/Kernel/Elf/Bytes.antt =====
-- The 32-bit address space as kernel/elf_loader.c sees it: bytes by their addresses, with the routines of
-- libc/string.c byte by byte, so that ranges may overlap.
pub mod Ranges
pub mod Words
use stellares_os.Common.{
  ℕ, zero, suc, ◌+◌, ◌-◌, ◌*◌, ◌/◌, ◌%◌, ◌^◌, List, [], ◌∷◌, ◌==◌, if◌then◌else◌,
}

abbrev pub Memory : Type 0
Memory = ℕ → ℕ

-- Addresses are taken modulo 2 ^ 32.
abbrev pub load : Memory → ℕ → ℕ
load m a = m (a % 2 ^ 32)

abbrev pub put : Memory → ℕ → ℕ → Memory
put m a v x = if x == a % 2 ^ 32 then v else m x

unfoldable pub load16 : Memory → ℕ → ℕ
load16 m a = load m a + 256 * load m (a + 1)

unfoldable pub load32 : Memory → ℕ → ℕ
unfolding load16
load32 m a = load16 m a + 65536 * load16 m (a + 2)

pub put32 : Memory → ℕ → ℕ → Memory
put32 m a v =
    put (put (put (put m a (v % 256)) (a + 1) (v / 256 % 256)) (a + 2) (v / 65536 % 256)) (a + 3)
      (v / 16777216 % 256)

-- `memcpy`: the first byte first.
pub copy : Memory → ℕ → ℕ → ℕ → Memory
copy m d s zero = m
copy m d s (suc n) = copy (put m d (load m s)) (d + 1) (s + 1) n

-- `memset` to 0.
pub clear : Memory → ℕ → ℕ → Memory
clear m d zero = m
clear m d (suc n) = clear (put m d 0) (d + 1) n

-- Bytes that come from elsewhere, at address `d`.
pub put_bytes : Memory → ℕ → List ℕ → Memory
put_bytes m d [] = m
put_bytes m d (c ∷ s) = put_bytes (put m d c) (d + 1) s
