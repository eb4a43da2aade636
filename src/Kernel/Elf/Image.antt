-- ===== src/Kernel/Elf/Image.antt =====
-- What kernel/elf_loader.c leaves in memory: the image that the file describes.
use stellares_os.Common.{
  ℕ, zero, suc, ◌+◌, ◌-◌, ◌*◌, ◌^◌, ◌<◌, ◌≤◌, ◌≡◌, refl, ap, ◌∙◌, ◌⊎◌, inl, inr, true, false,
  Option, some, arith, ltb, ltb→lt, ◌==◌, if◌then◌else◌, Bool-cases, ==_iff,
}
use stellares_os.Kernel.Elf.Bytes.{Memory, load32, copy, clear}
use stellares_os.Kernel.Elf.Bytes.Ranges.{
  within, copy_at, clear_at, Agree, load32-same, load16-same,
}
use stellares_os.Kernel.Elf.{
  Result, ok, header, Segment, segment, load_segment, load_from, check, elf_load,
}

-- The byte at `x` once a segment is in place: one of the file, a zero behind those, or what was there.
pub placed : Memory → ℕ → Segment → ℕ → ℕ → ℕ
placed m base ph x old =
    if ph.type == 1
    then (if within ph.vaddr ph.filesz x
        then m (base + ph.offset + (x - ph.vaddr))
        else if within ph.vaddr ph.memsz x
        then 0
        else old)
    else old

-- The byte at `x` once the segments `i`, ..., `i + n - 1` of the file in `m` are in place; `old` is what
-- was there.
pub image : Memory → ℕ → ℕ → ℕ → ℕ → ℕ → ℕ → ℕ
image m base table zero i x old = old
image m base table (suc n) i x old =
    image m base table n (i + 1) x (placed m base (segment m table i) x old)

-- A segment that the file contains and that lies within the addresses, apart from the file.
pub record IsPlaced (base size : ℕ) (ph : Segment) : Type 0 where
  pub in_file : ph.offset + ph.filesz ≤ size
  pub range : ph.vaddr + ph.filesz ≤ 2 ^ 32
  pub range_all : ph.vaddr + ph.memsz ≤ 2 ^ 32
  pub apart : (ph.vaddr + ph.filesz ≤ base) ⊎ (base + size ≤ ph.vaddr)
  pub apart_all : (ph.vaddr + ph.memsz ≤ base) ⊎ (base + size ≤ ph.vaddr)

-- A file of `size` bytes at `base` whose header and table of segments it contains.
pub record IsLoadable (m : Memory) (base size : ℕ) : Type 0 where
  pub checked : check m base size ≡ ok
  pub range : base + size ≤ 2 ^ 32
  pub header_inside : 52 ≤ size
  pub table_inside : (header m base).phoff + 32 * (header m base).phnum ≤ size
  pub few : (header m base).phnum < 2 ^ 16
  pub segments :
      (i : ℕ)
      → i < (header m base).phnum
      → (segment m (base + (header m base).phoff) i).type ≡ 1
      → IsPlaced base size (segment m (base + (header m base).phoff) i)

segment-same :
    (base z table i : ℕ) (m m' : Memory)
    → Agree base z m m'
    → z ≤ 2 ^ 32
    → base ≤ table
    → table + 32 * (i + 1) ≤ z
    → segment m table i ≡ segment m' table i
unfolding segment
segment-same base z table i m m' h r l t =
    let at : (k : ℕ) → k ≤ 28 → load32 m (table + 32 * i + k) ≡ load32 m' (table + 32 * i + k) =
      λ k q. load32-same base z m m' h r (table + 32 * i + k) (omega arith) (omega arith) in
    rw (
      load32-same base z m m' h r (table + 32 * i) (omega arith) (omega arith),
      at 4 (omega arith),
      at 8 (omega arith),
      at 16 (omega arith),
      at 20 (omega arith),
    )

phnum-same :
    (base z : ℕ) (m m' : Memory)
    → Agree base z m m'
    → z ≤ 2 ^ 32
    → base + 52 ≤ z
    → ((header m base).phnum ≡ (header m' base).phnum)
      × ((header m base).entry ≡ (header m' base).entry)
unfolding header
phnum-same base z m m' h r l = (
  load16-same base z m m' h r (base + 44) (omega arith) (omega arith),
  load32-same base z m m' h r (base + 24) (omega arith) (omega arith),
)

-- The copy and the clearing of one segment.
abbrev written : Memory → ℕ → Segment → Memory
written m base ph =
    let m' = copy m ph.vaddr (base + ph.offset) ph.filesz in
    if ltb ph.filesz ph.memsz then clear m' (ph.vaddr + ph.filesz) (ph.memsz - ph.filesz) else m'

copied_at :
    (m : Memory) (base size x : ℕ) (ph : Segment)
    → base + size ≤ 2 ^ 32
    → IsPlaced base size ph
    → copy m ph.vaddr (base + ph.offset) ph.filesz x
      ≡ (if within ph.vaddr ph.filesz x then m (base + ph.offset + (x - ph.vaddr)) else m x)
copied_at m base size x ph r p =
    let inside = p.in_file in
    let range = p.range in
    let apart = p.apart in
    copy_at m ph.vaddr (base + ph.offset) ph.filesz x (omega arith) (omega arith) (ground arith)

written_at :
    (m : Memory) (base size x : ℕ) (ph : Segment)
    → base + size ≤ 2 ^ 32
    → IsPlaced base size ph
    → written m base ph x ≡ (
        if within ph.vaddr ph.filesz x
        then m (base + ph.offset + (x - ph.vaddr))
        else if within ph.vaddr ph.memsz x
        then 0
        else m x)
written_at m base size x ph r p =
    let c = copied_at m base size x ph r p in
    let range = p.range_all in
    elim (Bool-cases (ltb ph.filesz ph.memsz)) [
      | inr e ↦ rw e (ground (arith, c, e))
      | inl e ↦
          let l = ltb→lt ph.filesz ph.memsz e in
          rw e (
            ground (
              arith,
              l,
              c,
              clear_at (copy m ph.vaddr (base + ph.offset) ph.filesz) (ph.vaddr + ph.filesz)
                  (ph.memsz - ph.filesz) x (omega arith),
            ))
    ]

load_segment_at :
    (m0 m : Memory) (base size table i x : ℕ)
    → base + size ≤ 2 ^ 32
    → base ≤ table
    → table + 32 * (i + 1) ≤ base + size
    → Agree base (base + size) m m0
    → ((segment m0 table i).type ≡ 1 → IsPlaced base size (segment m0 table i))
    → load_segment base table i m x ≡ placed m0 base (segment m0 table i) x (m x)
unfolding load_segment placed
load_segment_at m0 m base size table i x r l t h p =
    let ph = segment m0 table i in
    let same = segment-same base (base + size) table i m m0 h r l t in
    elim (Bool-cases (ph.type == 1)) [
      | inr e ↦ rw (same, e)
      | inl e ↦
          let q = p ((==_iff ph.type 1).0 e) in
          let m' = copy m ph.vaddr (base + ph.offset) ph.filesz in
          let kept : Agree base (base + size) m' m0 = λ y a z. kept_at q y a z in
          let same' = segment-same base (base + size) table i m' m0 kept r l t in
          rw (same, e, same') (written_at m base size x ph r q ∙ source q)
    ]
  where
    kept_at :
        IsPlaced base size (segment m0 table i)
        → (y : ℕ) → base ≤ y
        → y < base + size
        → copy m
            (segment m0 table i).vaddr
            (base + (segment m0 table i).offset)
            (segment m0 table i).filesz
            y
          ≡ m0 y
    kept_at q y a z =
        let apart = q.apart in
        ground (arith, copied_at m base size y (segment m0 table i) r q, h y a z)

    source :
        IsPlaced base size (segment m0 table i)
        → (if within (segment m0 table i).vaddr (segment m0 table i).filesz x
            then m (base + (segment m0 table i).offset + (x - (segment m0 table i).vaddr))
            else if within (segment m0 table i).vaddr (segment m0 table i).memsz x
            then 0
            else m x)
          ≡ (if within (segment m0 table i).vaddr (segment m0 table i).filesz x
              then m0 (base + (segment m0 table i).offset + (x - (segment m0 table i).vaddr))
              else if within (segment m0 table i).vaddr (segment m0 table i).memsz x
              then 0
              else m x)
    source q =
        let inside = q.in_file in
        elim (Bool-cases (within (segment m0 table i).vaddr (segment m0 table i).filesz x)) [
          | inr e ↦ rw e
          | inl e ↦ rw e (h _ (omega arith) (ground arith))
        ]

-- A segment that is in place leaves the bytes of the file.
placed_file :
    (m0 : Memory) (base size x old : ℕ) (ph : Segment)
    → (ph.type ≡ 1 → IsPlaced base size ph)
    → base ≤ x
    → x < base + size
    → placed m0 base ph x old ≡ old
unfolding placed
placed_file m0 base size x old ph p l r = elim (Bool-cases (ph.type == 1)) [
  | inr e ↦ rw e
  | inl e ↦
      let q = p ((==_iff ph.type 1).0 e) in let a = q.apart in let b = q.apart_all in ground arith
]

module _ (m0 : Memory) (base size table : ℕ) where
  load_from-image :
      (n k i : ℕ) (m : Memory)
      → base + size ≤ 2 ^ 32
      → 52 ≤ size
      → base ≤ table
      → table + 32 * (i + n) ≤ base + size
      → (header m0 base).phnum ≡ i + n
      → n < k
      → Agree base (base + size) m m0
      → ((j : ℕ)
          → j < i + n
          → (segment m0 table j).type ≡ 1
          → IsPlaced base size (segment m0 table j))
      → Agree base (base + size) (load_from k base table i m) m0
        × ((x : ℕ) → load_from k base table i m x ≡ image m0 base table n i x (m x))
  unfolding load_from image
  load_from-image n zero i m r hs l t c f h p = absurd (omega arith)
  load_from-image zero (suc k) i m r hs l t c f h p =
      let stop : ltb i (header m base).phnum ≡ false =
        ground (arith, c, (phnum-same base (base + size) m m0 h r (omega arith)).0) in
      (λ x a z. rw (stop, load_from) (h x a z), λ x. rw (stop, load_from))
  load_from-image (suc n) (suc k) i m r hs l t c f h p =
      let go : ltb i (header m base).phnum ≡ true =
        ground (arith, c, (phnum-same base (base + size) m m0 h r (omega arith)).0) in
      let q = p i (omega arith) in
      let m1 = load_segment base table i m in
      let at : (x : ℕ) → m1 x ≡ placed m0 base (segment m0 table i) x (m x) =
        λ x. load_segment_at m0 m base size table i x r l (omega arith) h q in
      let kept : Agree base (base + size) m1 m0 =
        λ x a z. at x ∙ placed_file m0 base size x (m x) (segment m0 table i) q a z ∙ h x a z in
      let ih =
        load_from-image n k (i + 1) m1 r hs l (omega arith) (omega arith) (omega arith) kept
          λ j u. p j (omega arith) in
      (
        λ x a z. rw (go, load_from) (ih.0 x a z),
        λ x. rw (go, load_from) (ih.1 x ∙ ap (image m0 base table n (i + 1) x) (at x)),
      )

-- What a load of a file leaves: the image of its segments, and its entry point.
pub record IsLoaded (base : ℕ) (m : Memory) (r : Result × Memory × Option ℕ) : Type 0 where
  pub success : r.0 ≡ ok
  pub entry : r.2 ≡ some (header m base).entry
  pub bytes :
      (x : ℕ) → r.1 x ≡ image m base (base + (header m base).phoff) (header m base).phnum 0 x (m x)

-- A file that passes the tests of `elf_load`, which contains its table of fewer than 2 ^ 16 program headers
-- and its segments, and apart from which these are placed within the addresses, is loaded: each byte of memory is the byte of the last segment that covers it, one
-- of the file up to `p_filesz` and 0 up to `p_memsz`, or is as it was where none does; the entry point is
-- the header's. Segments may overlap each other.
pub elf_load-IsLoaded :
    (m : Memory) (base size : ℕ) → IsLoadable m base size → IsLoaded base m (elf_load base size m)
unfolding elf_load
elf_load-IsLoaded m base size v =
    let table = base + (header m base).phoff in
    let inside = v.table_inside in
    let r =
      load_from-image m base size table (header m base).phnum 65536 0 m v.range v.header_inside
        (omega arith) (omega arith) (omega arith) (omega (arith, v.few)) (λ x a z. refl)
        λ j u. v.segments j (omega arith) in
    let same = phnum-same base (base + size) _ m r.0 v.range (omega (arith, v.header_inside)) in
    rw (v.checked, elf_load) (record { success = refl; entry = ap some same.1; bytes = r.1 })
