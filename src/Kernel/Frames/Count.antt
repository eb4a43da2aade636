-- ===== src/Kernel/Frames/Count.antt =====
-- What `pmm_alloc` of kernel/pmm.c hands out.
use stellares_os.Common.{
  ℕ, zero, suc, ◌+◌, ◌*◌, ◌/◌, ◌%◌, ◌^◌, ◌≤◌, ◌<◌, ◌≡◌, ◌≢◌, refl, inl, inr, Bool, true, false,
  List, [], ◌∷◌, some, arith, length, get_or-set, Option-cases,
}
use stellares_os.Kernel.Frames.{Frames, is_taken, first_free, alloc}

first_free-some :
    (bits : List Bool) (n f g : ℕ)
    → first_free bits n f ≡ some g
    → (k : ℕ) × (g ≡ f + k) × (k < n) × (k < length bits) × (is_taken bits k ≡ false)
unfolding first_free
first_free-some bits zero f g h = cc
first_free-some [] (suc n) f g h = cc
first_free-some (true ∷ bits) (suc n) f g h =
    let (k, p, q, r, t) = first_free-some bits n (f + 1) g h in
    (suc k, omega arith, omega arith, omega arith, t)
first_free-some (false ∷ bits) (suc n) f g h = (0, ground arith, omega arith, omega arith, refl)

-- A frame that was handed out: it was free, it is taken now, and the other frames are as they were.
pub record IsTaken (s t : Frames) (address f : ℕ) : Type 0 where
  pub place : address ≡ f * 4096
  pub in_range : f < s.total
  pub was_free : is_taken s.bits f ≡ false
  pub is_now : is_taken t.bits f ≡ true
  pub others : (g : ℕ) → g ≢ f → is_taken t.bits g ≡ is_taken s.bits g
  pub counted : t.used ≡ (s.used + 1) % 2 ^ 32

-- An address that `pmm_alloc` returns, other than 0, is that of a frame below `total` that was free: it
-- is taken now, it is counted, and no other frame has changed.
pub alloc-IsTaken :
    (s : Frames)
    → s.total ≤ 262144
    → (alloc s).0 ≢ 0
    → (f : ℕ) × IsTaken s (alloc s).1 (alloc s).0 f
unfolding alloc
alloc-IsTaken s h ne = elim (Option-cases (first_free s.bits (s.total / 32 * 32) 0)) [
  | inl e ↦ absurd (ne (rw (e, alloc)))
  | inr (f, e) ↦
      let (k, p, q, r, t) = first_free-some s.bits (s.total / 32 * 32) 0 f e in
      let same : f ≡ k = omega arith in
      let inside : f < length s.bits = omega arith in
      (
        f,
        rw (e, alloc)
            record {
              place = omega arith;
              in_range = omega arith;
              was_free = rw same t;
              is_now = ground (arith, get_or-set s.bits f f true false inside);
              others = λ g d. ground (arith, get_or-set s.bits f g true false inside, d);
              counted = refl;
            },
      )
]
