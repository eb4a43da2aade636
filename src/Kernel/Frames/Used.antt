-- ===== src/Kernel/Frames/Used.antt =====
-- What the loops of `pmm_mark_free` and `pmm_mark_used` of kernel/pmm.c do to the count of the frames in use.
use stellares_os.Common.{
  ℕ, zero, suc, ◌+◌, ◌^◌, ◌≤◌, ◌<◌, ◌≡◌, refl, ◌∙◌, inl, inr, true, false, arith, ltb, Bool-cases,
}
use stellares_os.Kernel.Frames.{Frames, is_taken, free_frame, take_frame, each}
use stellares_os.Kernel.Frames.Marks.{free_frame-Marks, take_frame-Marks}

free_frame-used :
    (f : ℕ) (s : Frames)
    → is_taken s.bits f ≡ true
    → 0 < s.used
    → s.used < 2 ^ 32
    → (free_frame f s).used + 1 ≡ s.used
unfolding free_frame
free_frame-used f s e l u = rw (e, free_frame) (omega arith)

take_frame-used :
    (f : ℕ) (s : Frames)
    → is_taken s.bits f ≡ false
    → s.used + 1 < 2 ^ 32
    → (take_frame f s).used ≡ s.used + 1
unfolding take_frame
take_frame-used f s e u = rw (e, take_frame) (omega arith)

take_frame-taken : (f : ℕ) (s : Frames) → is_taken s.bits f ≡ true → take_frame f s ≡ s
unfolding take_frame
take_frame-taken f s e = rw (e, take_frame) refl

-- The loop that frees goes round for `m` frames, all taken: the count falls by `m`.
pub each_free-used :
    (c m f : ℕ) (s : Frames)
    → ((g : ℕ) → f ≤ g → g < f + m → is_taken s.bits g ≡ true)
    → m ≤ c
    → f + m ≤ s.total
    → (m < c → f + m ≡ s.total)
    → m ≤ s.used
    → s.used < 2 ^ 32
    → (each free_frame c f s).used + m ≡ s.used
unfolding each
each_free-used zero zero f s t l n cut u w = omega arith
each_free-used zero (suc m) f s t l n cut u w = absurd (omega arith)
each_free-used (suc c) zero f s t l n cut u w =
    let ended : f + 0 ≡ s.total = cut (omega arith) in
    let off : ltb f s.total ≡ false = ground arith in rw (off, each) (omega arith)
each_free-used (suc c) (suc m) f s t l n cut u w =
    let k = free_frame-Marks in
    let on : ltb f s.total ≡ true = ground arith in
    let one = free_frame-used f s (t f (omega arith) (omega arith)) (omega arith) w in
    let tot = k.total_lem f s in
    let ih =
      each_free-used c m (f + 1) (free_frame f s)
        (λ g p q. k.other f g s (λ e. absurd (omega arith)) ∙ t g (omega arith) (omega arith))
        (omega arith) (omega arith) (λ p. let z = cut (omega arith) in omega arith) (omega arith)
        (omega arith) in
    rw (on, each) (omega arith)

-- The loop that takes goes round for `c` frames, all free: the count grows by `c`.
pub each_take-used :
    (c f : ℕ) (s : Frames)
    → ((g : ℕ) → f ≤ g → g < f + c → is_taken s.bits g ≡ false)
    → f + c ≤ s.total
    → s.used + c < 2 ^ 32
    → (each take_frame c f s).used ≡ s.used + c
unfolding each
each_take-used zero f s t n w = omega arith
each_take-used (suc c) f s t n w =
    let k = take_frame-Marks in
    let on : ltb f s.total ≡ true = ground arith in
    let one = take_frame-used f s (t f (omega arith) (omega arith)) (omega arith) in
    let tot = k.total_lem f s in
    let ih =
      each_take-used c (f + 1) (take_frame f s)
        (λ g p q. k.other f g s (λ e. absurd (omega arith)) ∙ t g (omega arith) (omega arith))
        (omega arith) (omega arith) in
    rw (on, each) (omega arith)

-- Where all its frames are taken already it changes nothing.
pub each_take-taken :
    (c f : ℕ) (s : Frames)
    → ((g : ℕ) → f ≤ g → g < f + c → is_taken s.bits g ≡ true)
    → each take_frame c f s ≡ s
unfolding each
each_take-taken zero f s t = refl
each_take-taken (suc c) f s t = elim (Bool-cases (ltb f s.total)) [
  | inl e ↦
      rw (e, each, take_frame-taken f s (t f (omega arith) (omega arith)))
        (each_take-taken c (f + 1) s (λ g p q. t g (omega arith) (omega arith)))
  | inr e ↦ rw (e, each) refl
]

-- A loop in two parts.
pub each_take-split :
    (a b f : ℕ) (s : Frames)
    → f + a ≤ s.total
    → each take_frame (a + b) f s ≡ each take_frame b (f + a) (each take_frame a f s)
unfolding each
each_take-split zero b f s n =
    let start : f + 0 ≡ f = omega arith in
    let all : 0 + b ≡ b = omega arith in rw (start, all, each) refl
each_take-split (suc a) b f s n =
    let on : ltb f s.total ≡ true = ground arith in
    let tot = take_frame-Marks.total_lem f s in
    let next : f + suc a ≡ (f + 1) + a = omega arith in
    let more : suc a + b ≡ suc (a + b) = omega arith in
    rw (more, on, each, next) (each_take-split a b (f + 1) (take_frame f s) (omega arith))
