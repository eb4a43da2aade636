-- ===== src/Kernel/Heap/Refine.antt =====
-- kernel/heap.c against its contract: a map from the pointers in use to their sizes, which `kmalloc`
-- extends at a new pointer and `kfree` clears at one.
use stellares_os.Common.{
  ℕ, ◌+◌, ◌*◌, ◌/◌, ◌%◌, ◌^◌, ◌≤◌, ◌<◌, ◌≡◌, refl, ◌∙◌, subst, true, inl, inr, Option, none, some,
  List, [], ◌∷◌, arith, ◌==◌, if◌then◌else◌, Bool-cases,
}
use mathlib.Core.Path.{fun_ext}
use stellares_os.Kernel.Heap.{
  Block, Heap, Found, round_up, find_block, take_block, kmalloc, size_at, is_block, free_at, kfree,
  init,
}
use stellares_os.Kernel.Heap.Blocks.{
  span, in_use, IsCarved, find_block-IsCarved, free_block-IsFreed,
}

-- The heap is tiled by its blocks within the 32-bit addresses, and `heap_used_b` counts those in use.
pub record IsValid (h : Heap) : Type 0 where
  pub range : h.start + span h.blocks < 2 ^ 32
  pub counted : h.used ≡ in_use h.blocks

-- The abstract view: the size of each block in use, by its pointer.
abbrev pub live : Heap → ℕ → Option ℕ
live h p = size_at p h.start h.blocks

abbrev pub update : (ℕ → Option ℕ) → ℕ → Option ℕ → ℕ → Option ℕ
update f p o q = if p == q then o else f q

in_use-le-span : (bs : List Block) → in_use bs ≤ span bs
unfolding in_use span
in_use-le-span [] = omega arith
in_use-le-span (b ∷ bs) = ground (arith, in_use-le-span bs)

-- A `kmalloc` that succeeds: a pointer that was not in use now has the size asked for or more, the view
-- changes there only, and the heap covers the same bytes.
pub record IsAllocated (sz p : ℕ) (h h' : Heap) : Type 0 where
  pub granted : ℕ
  pub enough : sz ≤ granted
  pub unused : live h p ≡ none
  pub view : live h' ≡ update (live h) p (some granted)
  pub same_start : h'.start ≡ h.start
  pub same_span : span h'.blocks ≡ span h.blocks
  pub valid : IsValid h'

took :
    (r sz p : ℕ) (h : Heap) (o : Option Found)
    → IsValid h
    → sz ≤ r
    → ((f : Found) → o ≡ some f → IsCarved r h.start h.blocks f)
    → (take_block o h).0 ≡ some p
    → IsAllocated sz p h (take_block o h).1
unfolding take_block
took r sz p h none v l c e = cc
took r sz p h (some f) v l c e =
    let w = c f refl in
    let at : f.address ≡ p = cc in
    record {
      granted = f.size;
      enough = omega (arith, w.enough);
      unused = rw (← at) w.unused;
      view = fun_ext λ q. w.others q ∙ rw at;
      same_start = refl;
      same_span = w.kept;
      valid = record {
        range = omega (arith, v.range, w.kept);
        counted = omega (arith, v.range, v.counted, w.grown, w.kept, in_use-le-span f.blocks);
      };
    }

-- A `kmalloc` of at most 2 ^ 32 - 56 bytes that returns a pointer extends the map of the blocks in use at
-- that pointer, which had none, by a block of the size asked for or more; every other block in use is as
-- it was, and the heap stays well formed.
pub kmalloc-IsAllocated :
    (sz p : ℕ) (h : Heap)
    → IsValid h
    → sz + 55 < 2 ^ 32
    → (kmalloc sz h).0 ≡ some p
    → IsAllocated sz p h (kmalloc sz h).1
unfolding kmalloc round_up
kmalloc-IsAllocated sz p h v l e = elim (Bool-cases (sz == 0)) [
  | inl z ↦ absurd (never p (rw z at e))
  | inr z ↦
      let r = (sz + 7) % 2 ^ 32 / 8 * 8 in
      rw z (
        took r sz p h (find_block r h.start h.blocks) v (omega arith)
          (λ f k. find_block-IsCarved r h.start h.blocks f (omega arith) k) (rw z at e))
]
  where
    never : (q : ℕ) → Path (Option ℕ) none (some q) → ⊥
    never q k = cc

free_at-update :
    (p : ℕ) (h : Heap)
    → IsValid h
    → (live (free_at p h) ≡ update (live h) p none)
      × (span (free_at p h).blocks ≡ span h.blocks)
      × IsValid (free_at p h)
unfolding free_at
free_at-update p h v =
    let w = free_block-IsFreed p h.start h.blocks in
    (
      fun_ext λ q. w.others q,
      w.kept,
      record {
        range = omega (arith, v.range, w.kept);
        counted = omega (arith, v.range, v.counted, w.shrunk, w.kept, in_use-le-span h.blocks);
      },
    )

free_start : (p : ℕ) (h : Heap) → (free_at p h).start ≡ h.start
unfolding free_at
free_start p h = refl

is_block-live : (p n a : ℕ) (bs : List Block) → size_at p a bs ≡ some n → is_block p a bs ≡ true
unfolding size_at is_block
is_block-live p n a [] e = cc
is_block-live p n a (b ∷ bs) e = elim (Bool-cases (a + 16 == p)) [
  | inl f ↦ rw (f, is_block) refl
  | inr f ↦ rw (f, is_block) (is_block-live p n (a + 16 + b.size) bs (rw (f, size_at) at e))
]

-- What a release from `h` to `k` does: the map is cleared at the pointer and nowhere else, over the same bytes.
pub record IsReleased (p : ℕ) (h k : Heap) : Type 0 where
  pub view : live k ≡ update (live h) p none
  pub same_start : k.start ≡ h.start
  pub same_span : span k.blocks ≡ span h.blocks
  pub valid : IsValid k

-- A release that has a result, of the pointer of a block, in use or free.
pub kfree-IsReleased :
    (p : ℕ) (h k : Heap) → IsValid h → kfree (some p) h ≡ some k → IsReleased p h k
unfolding kfree
kfree-IsReleased p h k v e = elim (Bool-cases (is_block p h.start h.blocks)) [
  | inl f ↦
      let same : free_at p h ≡ k = got (free_at p h) (rw (f, kfree) at e) in
      let w = free_at-update p h v in
      subst (IsReleased p h) same
        record { view = w.0; same_start = start_of; same_span = w.1; valid = w.2 }
  | inr f ↦ absurd (never (rw (f, kfree) at e))
]
  where
    got : (m : Heap) → Path (Option Heap) (some m) (some k) → m ≡ k
    got m q = cc

    never : Path (Option Heap) none (some k) → ⊥
    never q = cc

    start_of : (free_at p h).start ≡ h.start
    start_of = free_start p h

-- `kfree` of a block in use clears the map of the blocks in use at its pointer and nowhere else, and the heap
-- stays well formed over the same bytes.
pub kfree-update :
    (p n : ℕ) (h : Heap)
    → IsValid h
    → live h p ≡ some n
    → (k : Heap) × (kfree (some p) h ≡ some k) × IsReleased p h k
unfolding kfree
kfree-update p n h v e =
    let f = is_block-live p n h.start h.blocks e in
    let r : kfree (some p) h ≡ some (free_at p h) = rw (f, kfree) refl in
    (free_at p h, r, kfree-IsReleased p h (free_at p h) v r)

-- A heap of 16 bytes or more, within the addresses, starts well formed.
pub init-IsValid :
    (s sz : ℕ) (h : Heap) → 16 ≤ sz → s + sz < 2 ^ 32 → h.used ≡ 0 → IsValid (init s sz h)
unfolding init span in_use
init-IsValid s sz h k l e = record { range = omega arith; counted = ground arith }
