-- ===== src/Kernel/Elf/Stack.antt =====
-- The stack that kernel/elf_loader.c sets up for a program: the words that it pushes run downwards from
-- the end of the strings of the arguments, over the strings themselves.
use stellares_os.Common.{
  ℕ, ◌+◌, ◌-◌, ◌%◌, ◌^◌, ◌<◌, ◌≤◌, ◌≡◌, ap, ◌∙◌, inl, arith, List, [], ◌∷◌, ◌++◌, length,
}
use stellares_os.Kernel.Elf.Bytes.{Memory, load, load32, put32, put_bytes}
use stellares_os.Kernel.Elf.Bytes.Words.{load32-put32, put32_apart, put32_zero, load32-put32_apart}
use stellares_os.Kernel.Elf.{put_args, push, push_all, align, setup_stack}

push_lem :
    (v sp sp' : ℕ) (m : Memory) → sp ≡ sp' + 4 → sp < 2 ^ 32 → push v (sp, m) ≡ (sp', put32 m sp' v)
unfolding push
push_lem v sp sp' m h l = let e : (sp + 2 ^ 32 - 4) % 2 ^ 32 ≡ sp' = omega arith in rw e

-- The four words of zeros that end the tables of arguments, environment and auxiliary values.
zeros : ℕ → Memory → Memory
zeros a m = put32 (put32 (put32 (put32 m (a - 4) 0) (a - 8) 0) (a - 12) 0) (a - 16) 0

zeros_at : (a x : ℕ) (m : Memory) → 16 ≤ a → a < 2 ^ 32 → a - 16 ≤ x → x < a → zeros a m x ≡ 0
unfolding zeros
zeros_at a x m h l u v =
    let m1 = put32 m (a - 4) 0 in
    let m2 = put32 m1 (a - 8) 0 in
    let m3 = put32 m2 (a - 12) 0 in
    ground (
      arith,
      put32_zero m (a - 4) x,
      put32_zero m1 (a - 8) x,
      put32_zero m2 (a - 12) x,
      put32_zero m3 (a - 16) x,
      put32_apart m1 (a - 8) 0 x,
      put32_apart m2 (a - 12) 0 x,
      put32_apart m3 (a - 16) 0 x,
    )

pushes :
    (a at : ℕ) (m : Memory)
    → 24 ≤ a
    → a < 2 ^ 32
    → push 1 (push_all (at ∷ []) (push 0 (push 0 (push 0 (push 0 (a, m))))))
      ≡ (a - 24, put32 (put32 (zeros a m) (a - 20) at) (a - 24) 1)
unfolding zeros push_all
pushes a at m h l =
    let m1 = put32 m (a - 4) 0 in
    let m2 = put32 m1 (a - 8) 0 in
    let m3 = put32 m2 (a - 12) 0 in
    let m4 = put32 m3 (a - 16) 0 in
    rw (
      push_lem 0 a (a - 4) m (omega arith) l,
      push_lem 0 (a - 4) (a - 8) m1 (omega arith) (omega arith),
      push_lem 0 (a - 8) (a - 12) m2 (omega arith) (omega arith),
      push_lem 0 (a - 12) (a - 16) m3 (omega arith) (omega arith),
      push_lem at (a - 16) (a - 20) m4 (omega arith) (omega arith),
      push_lem 1 (a - 20) (a - 24) (put32 m4 (a - 20) at) (omega arith) (omega arith),
    )

one_arg :
    (top : ℕ) (name : List ℕ) (m : Memory)
    → 512 ≤ top
    → top < 2 ^ 32
    → length name ≤ 15
    → let at = top - 256 in
      let a = align (at + length name + 1) in
      setup_stack top (name ∷ []) m
      ≡ (a - 24, put32 (put32 (zeros a (put_bytes m at (name ++ (0 ∷ [])))) (a - 20) at) (a - 24) 1)
unfolding setup_stack put_args
one_arg top name m h l s =
    let at = top - 256 in
    let e : (top + 2 ^ 32 - 256) % 2 ^ 32 ≡ at = omega arith in
    let f : (at + length name + 1) % 2 ^ 32 ≡ at + length name + 1 = omega arith in
    rw (e, f)
      (pushes (align (at + length name + 1)) at _
        (align_range (at + length name + 1) (omega arith) (omega arith)).0
        (align_range (at + length name + 1) (omega arith) (omega arith)).1)
  where
    align_range : (a : ℕ) → 24 ≤ a → a < 2 ^ 32 - 16 → (24 ≤ align a) × (align a < 2 ^ 32)
    align_range a lo hi = unfold align in (omega arith, omega arith)

words :
    (a at : ℕ) (m : Memory)
    → 24 ≤ a
    → a < 2 ^ 32
    → a - 16 ≤ at
    → at < a
    → let m' = put32 (put32 (zeros a m) (a - 20) at) (a - 24) 1 in
      (load32 m' (a - 24) ≡ 1)
      × (load32 m' (a - 24 + 4) ≡ at)
      × (load m' (load32 m' (a - 24 + 4)) ≡ 0)
words a at m h l u v =
    let m1 = put32 (zeros a m) (a - 20) at in
    let m' = put32 m1 (a - 24) 1 in
    let next : a - 24 + 4 ≡ a - 20 = omega arith in
    let first : load32 m' (a - 24 + 4) ≡ at =
      ap (load32 m') next
      ∙ load32-put32_apart m1 (a - 24) 1 (a - 20) (omega arith) (omega arith) (inl (omega arith))
      ∙ load32-put32 (zeros a m) (a - 20) at (omega arith) (omega arith) in
    let same : at % 2 ^ 32 ≡ at = omega arith in
    let byte : m' at ≡ 0 =
      put32_apart m1 (a - 24) 1 at (omega arith) (ground arith)
      ∙ put32_apart (zeros a m) (a - 20) at at (omega arith) (ground arith)
      ∙ zeros_at a at m (omega arith) l u v in
    (
      load32-put32 m1 (a - 24) 1 (omega arith) (omega arith),
      first,
      ap (load m') first ∙ ap m' same ∙ byte,
    )

-- A program that is started with one argument of at most 15 bytes finds an argument count of 1 and an
-- address in its table of arguments, but the string at that address is empty: the words that end the
-- tables are written over it. (The end of the stack is a multiple of 4 and at least 512.)
pub setup_stack_clobbers :
    (top : ℕ) (name : List ℕ) (m : Memory)
    → 512 ≤ top
    → top < 2 ^ 32
    → top % 4 ≡ 0
    → length name ≤ 15
    → let (sp, m') = setup_stack top (name ∷ []) m in
      (load32 m' sp ≡ 1) × (load32 m' (sp + 4) ≡ top - 256) × (load m' (load32 m' (sp + 4)) ≡ 0)
setup_stack_clobbers top name m h l q s =
    let at = top - 256 in
    let a = align (at + length name + 1) in
    let r : (24 ≤ a) × (a < 2 ^ 32) × (a - 16 ≤ at) × (at < a) =
      unfold align in (omega arith, omega arith, omega arith, omega arith) in
    rw (one_arg top name m h l s) (words a at (put_bytes m at (name ++ (0 ∷ []))) r.0 r.1 r.2 r.3)
