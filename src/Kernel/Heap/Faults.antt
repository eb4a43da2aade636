-- ===== src/Kernel/Heap/Faults.antt =====
-- Where kernel/heap.c falls short of its contract.
use stellares_os.Common.{
  ℕ, ◌+◌, ◌-◌, ◌*◌, ◌/◌, ◌%◌, ◌^◌, ◌≤◌, ◌<◌, ◌≡◌, true, false, some, List, ◌∷◌, arith, ◌==◌,
}
use stellares_os.Kernel.Heap.{Block, Heap, find_block, kmalloc, free_block, size_at}
use stellares_os.Kernel.Heap.Refine.{live}

-- A block in use between two free ones, released, is merged with the one before it only: two free blocks
-- are left side by side, whatever the sizes.
pub free_block-unmerged :
    (a n m k : ℕ) (bs : List Block)
    → free_block (a + 16 + n + 16) a (
        record { is_free = true; size = n }
        ∷ record { is_free = false; size = m }
        ∷ record { is_free = true; size = k }
        ∷ bs)
      ≡ record { is_free = true; size = n + (16 + m) } ∷ record { is_free = true; size = k } ∷ bs
unfolding free_block
free_block-unmerged a n m k bs = ground arith

-- A request of 2 ^ 32 - 7 bytes or more wraps round to none: where the first block is free and has room
-- for a header and 32 bytes, the pointer that is returned is one of a block of size 0.
pub kmalloc_wraps :
    (sz : ℕ) (h : Heap) (b : Block) (bs : List Block)
    → 2 ^ 32 - 7 ≤ sz
    → sz < 2 ^ 32
    → h.blocks ≡ b ∷ bs
    → b.is_free ≡ true
    → 48 ≤ b.size
    → ((kmalloc sz h).0 ≡ some (h.start + 16)) × (live (kmalloc sz h).1 (h.start + 16) ≡ some 0)
unfolding kmalloc find_block size_at
kmalloc_wraps sz h b bs l k e free room =
    let r : (sz + 7) % 2 ^ 32 / 8 * 8 ≡ 0 = omega arith in
    let nz : (sz == 0) ≡ false = ground arith in
    (rw (nz, r, e) (ground arith), rw (nz, r, e) (ground arith))
