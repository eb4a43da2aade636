-- ===== src/Kernel/Heap/Tests.antt =====
-- A heap of 1024 bytes.
use stellares_os.Common.{◌+◌, ◌≡◌, refl, some, [], ◌∷◌, true, false, arith}
use stellares_os.Kernel.Heap.{Heap, init, kmalloc, kfree, find_block, size_at, free_block}
use stellares_os.Kernel.Heap.Refine.{
  IsValid, live, IsReleased, IsAllocated, kmalloc-IsAllocated, kfree-update, init-IsValid,
}
use stellares_os.Kernel.Heap.Faults.{free_block-unmerged}

abbrev off : Heap
off = record { start = 0; blocks = []; used = 0; bytes = λ a. 0 }

abbrev fresh : Heap
fresh = init 0x400000 1024 off

fresh-IsValid : IsValid fresh
fresh-IsValid = init-IsValid 0x400000 1024 off (omega arith) (omega arith) refl

fresh_pointer : (kmalloc 20 fresh).0 ≡ some 0x400010
unfolding kmalloc find_block init
fresh_pointer = refl

kmalloc-IsAllocated_example : IsAllocated 20 0x400010 fresh (kmalloc 20 fresh).1
kmalloc-IsAllocated_example =
    kmalloc-IsAllocated 20 0x400010 fresh fresh-IsValid (omega arith) fresh_pointer

abbrev one : Heap
one = (kmalloc 20 fresh).1

one-live : live one 0x400010 ≡ some 24
unfolding kmalloc find_block init size_at
one-live = refl

kfree-update_example : (k : Heap) × (kfree (some 0x400010) one ≡ some k) × IsReleased 0x400010 one k
kfree-update_example = kfree-update 0x400010 24 one kmalloc-IsAllocated_example.valid one-live

abbrev two : Heap
two = (kmalloc 8 one).1

free_block-unmerged_example :
    free_block (0 + 16 + 40 + 16) 0 (
      record { is_free = true; size = 40 }
      ∷ record { is_free = false; size = 8 }
      ∷ record { is_free = true; size = 80 }
      ∷ [])
    ≡ record { is_free = true; size = 40 + (16 + 8) } ∷ record { is_free = true; size = 80 } ∷ []
free_block-unmerged_example = free_block-unmerged 0 40 8 80 []

fresh_blocks : fresh.blocks ≡ record { is_free = true; size = 1008 } ∷ []
unfolding init
fresh_blocks = refl
