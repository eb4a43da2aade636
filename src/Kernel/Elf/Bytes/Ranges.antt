-- ===== src/Kernel/Elf/Bytes/Ranges.antt =====
-- Ranges of the address space of kernel/elf_loader.c: what a copy and a clearing leave at each address.
use stellares_os.Common.{
  ℕ, zero, suc, ◌+◌, ◌-◌, ◌%◌, ◌^◌, ◌<◌, ◌≤◌, ◌≡◌, ap, ◌⊎◌, inl, inr, Bool, ◌&&◌, arith, ltb, leb,
  ◌==◌, if◌then◌else◌, Bool-cases, ==_iff, ne-of-false,
}
use stellares_os.Kernel.Elf.Bytes.{Memory, load, put, load16, load32, copy, clear}

-- `x` lies in the `n` bytes from `a` on.
abbrev pub within : ℕ → ℕ → ℕ → Bool
within a n x = leb a x && ltb x (a + n)

pub put_at : (m : Memory) (a v x : ℕ) → a < 2 ^ 32 → put m a v x ≡ (if x == a then v else m x)
put_at m a v x h = ground arith

pub copy_at :
    (m : Memory) (d s n x : ℕ)
    → d + n ≤ 2 ^ 32
    → s + n ≤ 2 ^ 32
    → (d + n ≤ s) ⊎ (s + n ≤ d)
    → copy m d s n x ≡ (if within d n x then m (s + (x - d)) else m x)
unfolding copy
copy_at m d s zero x hd hs apart = ground arith
copy_at m d s (suc n) x hd hs apart =
    let v = load m s in
    let first : load m s ≡ m s = ap m (omega arith) in
    let step = copy_at (put m d v) (d + 1) (s + 1) n x (omega arith) (omega arith) (ground arith) in
    let here = put_at m d v x (omega arith) in
    let there = put_at m d v (s + 1 + (x - (d + 1))) (omega arith) in
    elim (Bool-cases (x == d)) [
      | inl e ↦
          let p = (==_iff x d).0 e in
          let at : m s ≡ m (s + (x - d)) = ap m (omega arith) in
          ground (arith, step, here, first, at)
      | inr e ↦
          let p = ne-of-false x d e in
          let same : d < x → s + 1 + (x - (d + 1)) ≡ s + (x - d) = λ l. omega arith in
          let moved : d < x → m (s + 1 + (x - (d + 1))) ≡ m (s + (x - d)) = λ l. ap m (same l) in
          ground (arith, step, here, there, moved)
    ]

pub clear_at :
    (m : Memory) (d n x : ℕ) → d + n ≤ 2 ^ 32 → clear m d n x ≡ (if within d n x then 0 else m x)
unfolding clear
clear_at m d zero x h = ground arith
clear_at m d (suc n) x h =
    ground (arith, clear_at (put m d 0) (d + 1) n x (omega arith), put_at m d 0 x (omega arith))

-- Two memories with the same bytes from `a` up to `z`.
abbrev pub Agree : ℕ → ℕ → Memory → Memory → Type 0
Agree a z m m' = (x : ℕ) → a ≤ x → x < z → m x ≡ m' x

module _ (a z : ℕ) (m m' : Memory) (h : Agree a z m m') (range : z ≤ 2 ^ 32) where
  pub load-same : (x : ℕ) → a ≤ x → x < z → load m x ≡ load m' x
  load-same x l r = h (x % 2 ^ 32) (omega arith) (omega arith)

  pub load16-same : (x : ℕ) → a ≤ x → x + 2 ≤ z → load16 m x ≡ load16 m' x
  unfolding load16
  load16-same x l r =
      rw (load-same x l (omega arith), load-same (x + 1) (omega arith) (omega arith))

  pub load32-same : (x : ℕ) → a ≤ x → x + 4 ≤ z → load32 m x ≡ load32 m' x
  unfolding load32
  load32-same x l r =
      rw (load16-same x l (omega arith), load16-same (x + 2) (omega arith) (omega arith))
