-- ===== src/Kernel/Idt/Gates.antt =====
-- What the gates of kernel/idt.c hold behind `idt_init`.
use stellares_os.Common.{
  ℕ, zero, suc, ◌+◌, ◌*◌, ◌^◌, ◌≤◌, ◌<◌, ◌≡◌, ◌≢◌, refl, ◌∙◌, inl, inr, List, arith, ◌==◌, length,
  get_or, length-set, get_or-set_self, get_or-set_ne, Bool-cases, ==_iff, ne-of-false,
}
use stellares_os.Kernel.Idt.{
  Gate, idt_gate, gates_from, init_gates, Machine, outb, remap_pic, idt_init,
}

abbrev pub gate_at : List Gate → ℕ → Gate
gate_at idt n =
    get_or idt n (record { base_low = 0; sel = 0; always0 = 0; flags = 0; base_high = 0 })

-- The address that the processor puts together from the two halves of a gate.
abbrev pub address : Gate → ℕ
address g = g.base_low + g.base_high * 2 ^ 16

-- A gate that leads to an entry of the kernel's code segment.
pub record LeadsTo (base flags : ℕ) (g : Gate) : Type 0 where
  pub address_lem : address g ≡ base
  pub in_kernel : g.sel ≡ 0x08
  pub flags_lem : g.flags ≡ flags

idt_gate-LeadsTo :
    (n base flags : ℕ) (idt : List Gate)
    → n < length idt
    → base < 2 ^ 32
    → LeadsTo base flags (gate_at (idt_gate n base 0x08 flags idt) n)
unfolding idt_gate
idt_gate-LeadsTo n base flags idt l u =
    rw (get_or-set_self idt n _ _ l)
      record { address_lem = omega arith; in_kernel = refl; flags_lem = refl }

gate_at-other :
    (n base sel flags k : ℕ) (idt : List Gate)
    → n ≢ k
    → gate_at (idt_gate n base sel flags idt) k ≡ gate_at idt k
unfolding idt_gate
gate_at-other n base sel flags k idt d = get_or-set_ne idt n k _ _ d

length-idt_gate :
    (n base sel flags : ℕ) (idt : List Gate) → length (idt_gate n base sel flags idt) ≡ length idt
unfolding idt_gate
length-idt_gate n base sel flags idt = length-set idt n _

module _ (entry : ℕ → ℕ) where
  length-gates_from : (c n : ℕ) (idt : List Gate) → length (gates_from c n entry idt) ≡ length idt
  unfolding gates_from
  length-gates_from zero n idt = refl
  length-gates_from (suc c) n idt =
      length-gates_from c (n + 1) (idt_gate n (entry n) 0x08 0x8E idt)
      ∙ length-idt_gate n (entry n) 0x08 0x8E idt

  gates_from-before :
      (c n k : ℕ) (idt : List Gate) → k < n → gate_at (gates_from c n entry idt) k ≡ gate_at idt k
  unfolding gates_from
  gates_from-before zero n k idt l = refl
  gates_from-before (suc c) n k idt l =
      gates_from-before c (n + 1) k (idt_gate n (entry n) 0x08 0x8E idt) (omega arith)
      ∙ gate_at-other n (entry n) 0x08 0x8E k idt (λ e. absurd (omega arith))

  gates_from-behind :
      (c n k : ℕ) (idt : List Gate)
      → n + c ≤ k
      → gate_at (gates_from c n entry idt) k ≡ gate_at idt k
  unfolding gates_from
  gates_from-behind zero n k idt l = refl
  gates_from-behind (suc c) n k idt l =
      gates_from-behind c (n + 1) k (idt_gate n (entry n) 0x08 0x8E idt) (omega arith)
      ∙ gate_at-other n (entry n) 0x08 0x8E k idt (λ e. absurd (omega arith))

  gates_from-inside :
      (c n k : ℕ) (idt : List Gate)
      → n ≤ k
      → k < n + c
      → n + c ≤ length idt
      → ((i : ℕ) → entry i < 2 ^ 32)
      → LeadsTo (entry k) 0x8E (gate_at (gates_from c n entry idt) k)
  unfolding gates_from
  gates_from-inside zero n k idt l u m w = absurd (omega arith)
  gates_from-inside (suc c) n k idt l u m w =
      let idt' = idt_gate n (entry n) 0x08 0x8E idt in
      let size = length-idt_gate n (entry n) 0x08 0x8E idt in
      elim (Bool-cases (n == k)) [
        | inl e ↦
            let same : n ≡ k = (==_iff n k).0 e in
            rw (← same, gates_from-before c (n + 1) n idt' (omega arith))
              (idt_gate-LeadsTo n (entry n) 0x8E idt (omega arith) (w n))
        | inr e ↦
            let d = ne-of-false n k e in
            gates_from-inside c (n + 1) k idt' (omega arith) (omega arith) (omega arith) w
      ]

module _ {ℓ} {S : Type ℓ} where
  remap_pic-gates : (m : Machine S) → (remap_pic m).gates ≡ m.gates
  unfolding remap_pic outb
  remap_pic-gates m = refl

  -- Behind idt_init every exception and every line of the controllers leads to its own entry through an interrupt
  -- gate, the system calls to theirs through a gate that a program may use, and the other gates are as they were;
  -- for a table of 256 gates and entries of 32 bits.
  pub idt_init-LeadsTo :
      (entry : ℕ → ℕ) (m : Machine S)
      → length m.gates ≡ 256
      → ((i : ℕ) → entry i < 2 ^ 32)
      → ((k : ℕ) → k < 48 → LeadsTo (entry k) 0x8E (gate_at (idt_init entry m).gates k))
        × LeadsTo (entry 128) 0xEE (gate_at (idt_init entry m).gates 128)
        × ((k : ℕ) → 48 ≤ k → k ≢ 128 → gate_at (idt_init entry m).gates k ≡ gate_at m.gates k)
  unfolding idt_init init_gates
  idt_init-LeadsTo entry m size w =
      let idt = gates_from 48 0 entry m.gates in
      let long = length-gates_from entry 48 0 m.gates in
      (
        λ k l.
            rw
              (
                remap_pic-gates m,
                gate_at-other 128 (entry 128) 0x08 0xEE k idt (λ e. absurd (omega arith)),
              )
              (gates_from-inside entry 48 0 k m.gates (omega arith) (omega arith) (omega arith) w),
        rw (remap_pic-gates m) (idt_gate-LeadsTo 128 (entry 128) 0xEE idt (omega arith) (w 128)),
        λ k l d. rw (remap_pic-gates m) (
            gate_at-other 128 (entry 128) 0x08 0xEE k idt (λ e. d (omega arith))
            ∙ gates_from-behind entry 48 0 k m.gates (omega arith)),
      )
