-- ===== src/Kernel/Elf/Bytes/Words.antt =====
-- 32-bit words in the memory of kernel/elf_loader.c.
use stellares_os.Common.{
  ℕ, ◌+◌, ◌/◌, ◌%◌, ◌^◌, ◌<◌, ◌≤◌, ◌≡◌, refl, ◌∙◌, ◌⊎◌, true, false, arith, ◌==◌, if◌then◌else◌,
}
use stellares_os.Kernel.Elf.Bytes.{Memory, load, load16, load32, put32}
use stellares_os.Kernel.Elf.Bytes.Ranges.{within}

pub put32_at :
    (m : Memory) (a v x : ℕ)
    → a + 4 ≤ 2 ^ 32
    → put32 m a v x ≡ (
        if x == a + 3
        then v / 16777216 % 256
        else if x == a + 2
        then v / 65536 % 256
        else if x == a + 1
        then v / 256 % 256
        else if x == a
        then v % 256
        else m x)
unfolding put32
put32_at m a v x h = ground arith

pub load32-put32 : (m : Memory) (a v : ℕ) → a + 4 ≤ 2 ^ 32 → v < 2 ^ 32 → load32 (put32 m a v) a ≡ v
unfolding load32 load16
load32-put32 m a v h r =
    let at : (x : ℕ) → load (put32 m a v) x ≡ put32 m a v (x % 2 ^ 32) = λ x. refl in
    let b0 : load (put32 m a v) a ≡ v % 256 = put32_at m a v (a % 2 ^ 32) h ∙ ground arith in
    let b1 : load (put32 m a v) (a + 1) ≡ v / 256 % 256 =
      put32_at m a v ((a + 1) % 2 ^ 32) h ∙ ground arith in
    let b2 : load (put32 m a v) (a + 2) ≡ v / 65536 % 256 =
      put32_at m a v ((a + 2) % 2 ^ 32) h ∙ ground arith in
    let b3 : load (put32 m a v) (a + 2 + 1) ≡ v / 16777216 % 256 =
      put32_at m a v ((a + 2 + 1) % 2 ^ 32) h ∙ ground arith in
    omega (arith, b0, b1, b2, b3)

-- A byte outside a word that is written keeps its value.
pub put32_apart :
    (m : Memory) (a v x : ℕ) → a + 4 ≤ 2 ^ 32 → within a 4 x ≡ false → put32 m a v x ≡ m x
put32_apart m a v x h o = ground (arith, put32_at m a v x h)

pub put32_zero : (m : Memory) (a x : ℕ) → a + 4 ≤ 2 ^ 32 → within a 4 x ≡ true → put32 m a 0 x ≡ 0
put32_zero m a x h o = ground (arith, put32_at m a 0 x h)

pub load32-put32_apart :
    (m : Memory) (a v b : ℕ)
    → a + 4 ≤ 2 ^ 32
    → b + 4 ≤ 2 ^ 32
    → (a + 4 ≤ b) ⊎ (b + 4 ≤ a)
    → load32 (put32 m a v) b ≡ load32 m b
unfolding load32 load16
load32-put32_apart m a v b h k apart =
    let at : (x : ℕ) → b ≤ x → x < b + 4 → load (put32 m a v) x ≡ load m x =
      λ x l r. put32_apart m a v (x % 2 ^ 32) h (ground arith) in
    rw (
      at b (omega arith) (omega arith),
      at (b + 1) (omega arith) (omega arith),
      at (b + 2) (omega arith) (omega arith),
      at (b + 2 + 1) (omega arith) (omega arith),
    )
