-- ===== src/Kernel/Heap.antt =====
-- kernel/heap.c: the heap of the kernel. The linked list of block headers runs through the heap in the
-- order of the addresses, so it is the list of its blocks, and the address of a header follows from the
-- sizes before it; a header has 16 bytes. `bytes` is the memory between the headers. Sizes are 32-bit
-- numbers.
pub mod Blocks
pub mod Refine
pub mod Steps
pub mod Faults
mod Tests
use stellares_os.Common.{
  ℕ, zero, suc, ◌+◌, ◌-◌, ◌*◌, ◌/◌, ◌%◌, ◌^◌, Bool, true, false, ◌&&◌, ◌||◌, Option, none, some,
  List, [], ◌∷◌, ltb, leb, ◌==◌, if◌then◌else◌,
}

-- `magic` is FREE or USED.
pub record Block : Type 0 where
  pub is_free : Bool
  pub size : ℕ

pub record Heap : Type 0 where
  pub start : ℕ
  pub blocks : List Block
  pub used : ℕ
  pub bytes : ℕ → ℕ

pub init : ℕ → ℕ → Heap → Heap
init s sz h = record h {
  start = s;
  blocks = record { is_free = true; size = (sz + 2 ^ 32 - 16) % 2 ^ 32 } ∷ [];
}

-- `(sz + 7) & ~7`
pub round_up : ℕ → ℕ
round_up sz = (sz + 7) % 2 ^ 32 / 8 * 8

-- What becomes of a free block that is large enough: the rest is split off if it holds a header and 32
-- bytes more.
pub carve : Block → ℕ → List Block → List Block
carve c sz bs =
    if leb ((sz + 48) % 2 ^ 32) c.size
    then record { is_free = false; size = sz }
      ∷ record { is_free = true; size = c.size - sz - 16 }
      ∷ bs
    else record c { is_free = false } ∷ bs

pub carved_size : Block → ℕ → ℕ
carved_size c sz = if leb ((sz + 48) % 2 ^ 32) c.size then sz else c.size

-- A block that was found: its address behind the header, its size, and the list with it taken.
pub record Found : Type 0 where
  pub address : ℕ
  pub size : ℕ
  pub blocks : List Block

abbrev pub keep_before : Block → Option Found → Option Found
keep_before c none = none
keep_before c (some f) = some (record f { blocks = c ∷ f.blocks })

-- `while (c)`: the first free block that is large enough; `a` is the address of the first header.
pub find_block : ℕ → ℕ → List Block → Option Found
unfolding carve carved_size
find_block sz a [] = none
find_block sz a (c ∷ bs) =
    if c.is_free && leb sz c.size
    then some (record { address = a + 16; size = carved_size c sz; blocks = carve c sz bs })
    else keep_before c (find_block sz (a + 16 + c.size) bs)

pub take_block : Option Found → Heap → Option ℕ × Heap
take_block none h = (none, h)
take_block (some f) h =
    (some f.address, record h { blocks = f.blocks; used = (h.used + f.size) % 2 ^ 32 })

-- `none` is NULL.
pub kmalloc : ℕ → Heap → Option ℕ × Heap
unfolding round_up take_block
kmalloc sz h =
    if sz == 0 then (none, h) else take_block (find_block (round_up sz) h.start h.blocks) h

-- A block takes over the one behind it if that is free.
pub merge : Block → List Block → List Block
merge b [] = b ∷ []
merge b (n ∷ bs) = if n.is_free then record b { size = b.size + (16 + n.size) } ∷ bs else b ∷ n ∷ bs

abbrev freed : Block → Block
freed b = record b { is_free = true }

-- `kfree` behind its tests, for the block `b` at the pointer, with the one before it.
pub free_behind : Block → Block → List Block → List Block
unfolding merge
free_behind prev b bs =
    if b.is_free
    then prev ∷ b ∷ bs
    else if prev.is_free
    then merge prev (freed b ∷ bs)
    else prev ∷ merge (freed b) bs

pub free_from : ℕ → ℕ → Block → List Block → List Block
unfolding free_behind
free_from p a prev [] = prev ∷ []
free_from p a prev (b ∷ bs) =
    if a + 16 == p then free_behind prev b bs else prev ∷ free_from p (a + 16 + b.size) b bs

-- The first block has none before it. `p` is the pointer of a block.
pub free_block : ℕ → ℕ → List Block → List Block
unfolding free_from merge
free_block p a [] = []
free_block p a (b ∷ bs) =
    if a + 16 == p
    then (if b.is_free then b ∷ bs else merge (freed b) bs)
    else free_from p (a + 16 + b.size) b bs

-- The size of the block in use at a pointer.
pub size_at : ℕ → ℕ → List Block → Option ℕ
size_at p a [] = none
size_at p a (b ∷ bs) =
    if a + 16 == p
    then (if b.is_free then none else some b.size)
    else size_at p (a + 16 + b.size) bs

abbrev pub size_or : Option ℕ → ℕ
size_or none = 0
size_or (some n) = n

pub free_at : ℕ → Heap → Heap
unfolding free_block
free_at p h = record h {
  blocks = free_block p h.start h.blocks;
  used = (h.used + 2 ^ 32 - size_or (size_at p h.start h.blocks)) % 2 ^ 32;
}

-- Whether a block, free or in use, has this pointer.
pub is_block : ℕ → ℕ → List Block → Bool
is_block p a [] = false
is_block p a (b ∷ bs) = a + 16 == p || is_block p (a + 16 + b.size) bs

-- `none` is NULL. For a pointer that is that of no block there is no result: the source looks for the mark in
-- whatever stands before it, and where it finds one goes on with links that are none of the heap's.
pub kfree : Option ℕ → Heap → Option Heap
unfolding free_at is_block
kfree none h = some h
kfree (some p) h = if is_block p h.start h.blocks then some (free_at p h) else none

-- `memcpy(n, p, size)`
pub copy : ℕ → ℕ → ℕ → Heap → Heap
copy n p size h = record h {
  bytes = λ a. if leb n a && ltb a (n + size) then h.bytes (p + (a - n)) else h.bytes a;
}

pub moved : ℕ → ℕ → Option ℕ × Heap → Option ℕ × Heap
unfolding copy
moved p size (none, h) = (none, h)
moved p size (some n, h) = (some n, free_at p (copy n p size h))

-- For a pointer of a block in use.
pub krealloc : Option ℕ → ℕ → Heap → Option ℕ × Heap
unfolding moved
krealloc none sz h = kmalloc sz h
krealloc (some p) sz h =
    let size = size_or (size_at p h.start h.blocks) in
    if leb sz size then (some p, h) else moved p size (kmalloc sz h)
