-- ===== src/Kernel/Frames/Marks.antt =====
-- What the loops of `pmm_mark_free` and `pmm_mark_used` of kernel/pmm.c leave in the map.
use stellares_os.Common.{
  ℕ, zero, suc, ◌+◌, ◌≤◌, ◌<◌, ◌≡◌, ◌≢◌, refl, ◌∙◌, inl, inr, Bool, true, false, arith, ltb, length,
  length-set, get_or-set_self, get_or-set_ne, Bool-cases, ◌==◌, ==_iff, ne-of-false,
}
use stellares_os.Kernel.Frames.{Frames, is_taken, free_frame, take_frame, each}

-- What one step of such a loop does to the frame that it is called for, and to the others.
pub record Marks (act : ℕ → Frames → Frames) (v : Bool) : Type 0 where
  pub total_lem : (f : ℕ) (s : Frames) → (act f s).total ≡ s.total
  pub size_lem : (f : ℕ) (s : Frames) → length (act f s).bits ≡ length s.bits
  pub self : (f : ℕ) (s : Frames) → f < length s.bits → is_taken (act f s).bits f ≡ v
  pub other : (f g : ℕ) (s : Frames) → f ≢ g → is_taken (act f s).bits g ≡ is_taken s.bits g

pub free_frame-Marks : Marks free_frame false
unfolding free_frame
free_frame-Marks = record {
  total_lem = λ f s. elim (Bool-cases (is_taken s.bits f)) [
    | inl e ↦ rw (e, free_frame) refl
    | inr e ↦ rw (e, free_frame) refl
  ];
  size_lem = λ f s. elim (Bool-cases (is_taken s.bits f)) [
    | inl e ↦ rw (e, free_frame) (length-set s.bits f false)
    | inr e ↦ rw (e, free_frame) refl
  ];
  self = λ f s l. elim (Bool-cases (is_taken s.bits f)) [
    | inl e ↦ rw (e, free_frame) (get_or-set_self s.bits f false false l)
    | inr e ↦ rw (e, free_frame) e
  ];
  other = λ f g s d. elim (Bool-cases (is_taken s.bits f)) [
    | inl e ↦ rw (e, free_frame) (get_or-set_ne s.bits f g false false d)
    | inr e ↦ rw (e, free_frame) refl
  ];
}

pub take_frame-Marks : Marks take_frame true
unfolding take_frame
take_frame-Marks = record {
  total_lem = λ f s. elim (Bool-cases (is_taken s.bits f)) [
    | inl e ↦ rw (e, take_frame) refl
    | inr e ↦ rw (e, take_frame) refl
  ];
  size_lem = λ f s. elim (Bool-cases (is_taken s.bits f)) [
    | inl e ↦ rw (e, take_frame) refl
    | inr e ↦ rw (e, take_frame) (length-set s.bits f true)
  ];
  self = λ f s l. elim (Bool-cases (is_taken s.bits f)) [
    | inl e ↦ rw (e, take_frame) e
    | inr e ↦ rw (e, take_frame) (get_or-set_self s.bits f true false l)
  ];
  other = λ f g s d. elim (Bool-cases (is_taken s.bits f)) [
    | inl e ↦ rw (e, take_frame) refl
    | inr e ↦ rw (e, take_frame) (get_or-set_ne s.bits f g true false d)
  ];
}

module _ {act : ℕ → Frames → Frames} {v : Bool} (m : Marks act v) where
  pub each-total : (c f : ℕ) (s : Frames) → (each act c f s).total ≡ s.total
  unfolding each
  each-total zero f s = refl
  each-total (suc c) f s = elim (Bool-cases (ltb f s.total)) [
    | inl e ↦ rw (e, each) (each-total c (f + 1) (act f s) ∙ m.total_lem f s)
    | inr e ↦ rw (e, each) refl
  ]

  pub length-each : (c f : ℕ) (s : Frames) → length (each act c f s).bits ≡ length s.bits
  unfolding each
  length-each zero f s = refl
  length-each (suc c) f s = elim (Bool-cases (ltb f s.total)) [
    | inl e ↦ rw (e, each) (length-each c (f + 1) (act f s) ∙ m.size_lem f s)
    | inr e ↦ rw (e, each) refl
  ]

  pub each-before :
      (c f g : ℕ) (s : Frames) → g < f → is_taken (each act c f s).bits g ≡ is_taken s.bits g
  unfolding each
  each-before zero f g s l = refl
  each-before (suc c) f g s l = elim (Bool-cases (ltb f s.total)) [
    | inl e ↦
        rw (e, each)
          (each-before c (f + 1) g (act f s) (omega arith)
            ∙ m.other f g s (λ p. absurd (omega arith)))
    | inr e ↦ rw (e, each) refl
  ]

  pub each-behind :
      (c f g : ℕ) (s : Frames) → f + c ≤ g → is_taken (each act c f s).bits g ≡ is_taken s.bits g
  unfolding each
  each-behind zero f g s l = refl
  each-behind (suc c) f g s l = elim (Bool-cases (ltb f s.total)) [
    | inl e ↦
        rw (e, each)
          (each-behind c (f + 1) g (act f s) (omega arith)
            ∙ m.other f g s (λ p. absurd (omega arith)))
    | inr e ↦ rw (e, each) refl
  ]

  pub each-inside :
      (c f g : ℕ) (s : Frames)
      → f ≤ g
      → g < f + c
      → g < s.total
      → s.total ≤ length s.bits
      → is_taken (each act c f s).bits g ≡ v
  unfolding each
  each-inside zero f g s l u t n = absurd (omega arith)
  each-inside (suc c) f g s l u t n =
      let here : ltb f s.total ≡ true = ground arith in
      let tot = m.total_lem f s in
      let len = m.size_lem f s in
      rw (here, each)
        (elim (Bool-cases (f == g)) [
          | inl e ↦
              let same : f ≡ g = (==_iff f g).0 e in
              rw (← same)
                (each-before c (f + 1) f (act f s) (omega arith) ∙ m.self f s (omega arith))
          | inr e ↦
              let d = ne-of-false f g e in
              each-inside c (f + 1) g (act f s) (omega arith) (omega arith) (omega arith)
                (omega arith)
        ])
