-- ===== src/Kernel/Heap/Steps.antt =====
-- Every heap that calls of kernel/heap.c can reach.
use stellares_os.Common.{ℕ, ◌+◌, ◌^◌, ◌<◌, ◌≡◌, some}
use stellares_os.Kernel.Heap.{Heap, kmalloc, kfree}
use stellares_os.Kernel.Heap.Blocks.{span}
use stellares_os.Kernel.Heap.Refine.{IsValid}

-- One call that may change the heap: an allocation that succeeds, or a release of the pointer of a block, in use or
-- free. (An allocation that fails changes nothing.)
pub data Step : Heap → Heap → Type 0 where
  malloc :
      {h : Heap} (sz p : ℕ) → sz + 55 < 2 ^ 32 → (kmalloc sz h).0 ≡ some p → Step h (kmalloc sz h).1
  free : {h k : Heap} (p : ℕ) → kfree (some p) h ≡ some k → Step h k

pub data Reach (h : Heap) : Heap → Type 0 where
  here : Reach h h
  next : {k l : Heap} → Reach h k → Step k l → Reach h l

-- What no call changes, and what every call keeps.
record IsSame (h k : Heap) : Type 0 where
  pub start : k.start ≡ h.start
  pub size : span k.blocks ≡ span h.blocks
  pub valid : IsValid k
