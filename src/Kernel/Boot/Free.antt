-- ===== src/Kernel/Boot/Free.antt =====
-- The page frames behind the start of kernel/kernel.c.
use stellares_os.Common.{
  ℕ, zero, suc, ◌+◌, ◌-◌, ◌*◌, ◌/◌, ◌%◌, ◌^◌, ◌≤◌, ◌<◌, ◌≡◌, refl, sym, subst, ap, ◌∙◌, Bool, true,
  false, List, [], ◌∷◌, arith, ltb, length, get_or, replicate, length-replicate, some,
  if◌then◌else◌,
}
use stellares_os.Kernel.Frames.{
  Frames, is_taken, free_frame, take_frame, each, init, mark_free, mark_used, first_free, alloc,
}
use stellares_os.Kernel.Frames.Marks.{
  free_frame-Marks, take_frame-Marks, each-total, length-each, each-before, each-behind,
  each-inside,
}
use stellares_os.Kernel.Frames.Used.{
  each_free-used, each_take-used, each_take-taken, each_take-split,
}
use stellares_os.Kernel.Boot.{heap_start, boot_frames}

-- The frames of a memory of `kb` kilobytes, up to the size of the map.
abbrev pub frame_count : ℕ → ℕ
frame_count kb = if ltb 262144 (kb / 4) then 262144 else kb / 4

-- Exactly the frames below the heap are taken, and they are counted.
pub record IsBooted (t : ℕ) (s : Frames) : Type 0 where
  pub size : length s.bits ≡ 262144
  pub total_lem : s.total ≡ t
  pub low : (g : ℕ) → g < 1024 → is_taken s.bits g ≡ true
  pub high : (g : ℕ) → 1024 ≤ g → g < t → is_taken s.bits g ≡ false
  pub counted : s.used ≡ 1024

record IsFull (t : ℕ) (s : Frames) : Type 0 where
  size : length s.bits ≡ 262144
  total_lem : s.total ≡ t
  used_lem : s.used ≡ t
  taken : (g : ℕ) → g < 262144 → is_taken s.bits g ≡ true

get_or-replicate : (n : ℕ) (a : Bool) (i : ℕ) (d : Bool) → i < n → get_or (replicate n a) i d ≡ a
get_or-replicate zero a i d l = absurd (omega arith)
get_or-replicate (suc n) a zero d l = refl
get_or-replicate (suc n) a (suc i) d l = get_or-replicate n a i d (omega arith)

init-IsFull :
    (kb : ℕ) (s : Frames) → 1024 < kb → kb < 2 ^ 22 → IsFull (frame_count kb) (init (kb - 1024) s)
unfolding init
init-IsFull kb s l u =
    let same : (1024 + (kb - 1024)) % 2 ^ 32 / 4 ≡ kb / 4 = omega arith in
    let t = ap (λ n. if ltb 262144 n then 262144 else n) same in
    record {
      size = length-replicate 262144 true;
      total_lem = t;
      used_lem = t;
      taken = λ g p. get_or-replicate 262144 true g false p;
    }

-- A record of what the first loop leaves.
record IsFreed (t : ℕ) (s : Frames) : Type 0 where
  size : length s.bits ≡ 262144
  total_lem : s.total ≡ t
  low : (g : ℕ) → g < 256 → is_taken s.bits g ≡ true
  high : (g : ℕ) → 256 ≤ g → g < t → is_taken s.bits g ≡ false
  counted : s.used ≡ 256

freed :
    (t c : ℕ) (s : Frames)
    → IsFull t s
    → 1024 ≤ t
    → t ≤ 262144
    → t ≤ 256 + c
    → IsFreed t (each free_frame c 256 s)
freed t c s h l n r =
    let k = free_frame-Marks in
    let size = h.size in
    let total = h.total_lem in
    let used = h.used_lem in
    let count =
      each_free-used c (t - 256) 256 s (λ g p q. h.taken g (omega arith)) (omega arith)
        (omega arith) (λ p. omega arith) (omega arith) (omega arith) in
    record {
      size = length-each k c 256 s ∙ h.size;
      total_lem = each-total k c 256 s ∙ h.total_lem;
      low = λ g p. each-before k c 256 g s p ∙ h.taken g (omega arith);
      high = λ g p q. each-inside k c 256 g s p (omega arith) (omega arith) (omega arith);
      counted = omega arith;
    }

taken_below :
    (t : ℕ) (s : Frames)
    → IsFreed t s
    → 1024 ≤ t
    → t ≤ 262144
    → IsBooted t (each take_frame 1024 0 s)
taken_below t s h l n =
    let k = take_frame-Marks in
    let size = h.size in
    let total = h.total_lem in
    let used = h.counted in
    let first = each_take-taken 256 0 s (λ g p q. h.low g (omega arith)) in
    let count =
      each_take-used 768 256 s (λ g p q. h.high g p (omega arith)) (omega arith) (omega arith) in
    let split : each take_frame 1024 0 s ≡ each take_frame 768 256 (each take_frame 256 0 s) =
      each_take-split 256 768 0 s (omega arith) in
    record {
      size = length-each k 1024 0 s ∙ h.size;
      total_lem = each-total k 1024 0 s ∙ h.total_lem;
      low = λ g p. each-inside k 1024 0 g s (omega arith) (omega arith) (omega arith) (omega arith);
      high = λ g p q. each-behind k 1024 0 g s p ∙ h.high g (omega arith) q;
      counted =
          ap (λ r. r.used) (split ∙ ap (each take_frame 768 256) first) ∙ omega (arith, count);
    }

mark_used-IsBooted :
    (t : ℕ) (s : Frames)
    → IsFreed t s
    → 1024 ≤ t
    → t ≤ 262144
    → IsBooted t (mark_used 0 heap_start s)
unfolding mark_used
mark_used-IsBooted t s h l n = taken_below t s h l n

mark_free-IsFreed :
    (t size : ℕ) (s : Frames)
    → IsFull t s
    → 1024 ≤ t
    → t ≤ 262144
    → t ≤ 256 + (size + 4095) % 2 ^ 32 / 4096
    → IsFreed t (mark_free 0x00100000 size s)
unfolding mark_free
mark_free-IsFreed t size s h l n r = freed t ((size + 4095) % 2 ^ 32 / 4096) s h l n r

abbrev marked : ℕ → ℕ → Frames → Frames
marked size n s = mark_used 0 heap_start (mark_free 0x00100000 size (init n s))

boot_frames-marked :
    (kb : ℕ) (s : Frames)
    → 1024 < kb
    → boot_frames kb s ≡ marked ((kb + 2 ^ 32 - 1024) % 2 ^ 32 * 1024 % 2 ^ 32) (kb - 1024) s
unfolding boot_frames
boot_frames-marked kb s l =
    let same : (if ltb 1024 kb then kb - 1024 else 0) ≡ kb - 1024 = ground arith in
    ap (λ n. marked ((kb + 2 ^ 32 - 1024) % 2 ^ 32 * 1024 % 2 ^ 32) n s) same

-- On a memory of 4 megabytes or more, below 4 gigabytes, exactly the frames below 4 megabytes are taken behind
-- the start, as far as the map goes, and the count of the frames in use is theirs.
pub boot_frames-IsBooted :
    (kb : ℕ) (s : Frames) → 4096 ≤ kb → kb < 2 ^ 22 → IsBooted (frame_count kb) (boot_frames kb s)
boot_frames-IsBooted kb s l u =
    let size = (kb + 2 ^ 32 - 1024) % 2 ^ 32 * 1024 % 2 ^ 32 in
    let least : 1024 ≤ frame_count kb = ground arith in
    let most : frame_count kb ≤ 262144 = ground arith in
    let rounds : kb / 4 ≤ 256 + (size + 4095) % 2 ^ 32 / 4096 = omega arith in
    let enough : frame_count kb ≤ 256 + (size + 4095) % 2 ^ 32 / 4096 = ground arith in
    subst (IsBooted (frame_count kb)) (sym (boot_frames-marked kb s (omega arith))) (
      mark_used-IsBooted (frame_count kb) _
        (mark_free-IsFreed (frame_count kb) size (init (kb - 1024) s)
          (init-IsFull kb s (omega arith) u) least most enough)
        least most)

first_free-first :
    (bits : List Bool) (n f k : ℕ)
    → ((g : ℕ) → g < k → is_taken bits g ≡ true)
    → is_taken bits k ≡ false
    → k < n
    → k < length bits
    → first_free bits n f ≡ some (f + k)
unfolding first_free
first_free-first bits zero f k t e l m = absurd (omega arith)
first_free-first [] (suc n) f k t e l m = absurd (omega arith)
first_free-first (true ∷ bits) (suc n) f zero t e l m = cc
first_free-first (false ∷ bits) (suc n) f zero t e l m = ap some (omega arith)
first_free-first (x ∷ bits) (suc n) f (suc k) t e l m =
    let here : x ≡ true = t 0 (omega arith) in
    let next : f + suc k ≡ (f + 1) + k = omega arith in
    rw (here, first_free, next)
      (first_free-first bits n (f + 1) k (λ g p. t (suc g) (omega arith)) e (omega arith)
        (omega arith))

-- On a memory of 4224 kilobytes or more, below 4 gigabytes, the first address that pmm_alloc returns behind the
-- start is that of the heap.
pub alloc-boot_frames :
    (kb : ℕ) (s : Frames) → 4224 ≤ kb → kb < 2 ^ 22 → (alloc (boot_frames kb s)).0 ≡ heap_start
unfolding alloc
alloc-boot_frames kb s l u =
    let b = boot_frames kb s in
    let h = boot_frames-IsBooted kb s (omega arith) u in
    let size = h.size in
    let total = h.total_lem in
    let least : 1056 ≤ frame_count kb = ground arith in
    let first : first_free b.bits (b.total / 32 * 32) 0 ≡ some 1024 =
      first_free-first b.bits (b.total / 32 * 32) 0 1024 h.low
        (h.high 1024 (omega arith) (omega arith)) (omega arith) (omega arith) in
    rw (first, alloc) refl
