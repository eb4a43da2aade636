-- ===== src/Kernel/Idt/Lines.antt =====
-- What an interrupt of a device does, by `irq_handler` of kernel/idt.c.
use stellares_os.Common.{
  ℕ, ◌+◌, ◌-◌, ◌<◌, ◌≡◌, ◌≢◌, refl, sym, ◌∙◌, Bool-cases, inl, inr, ◌&&◌, true, Option, none, some,
  List, ◌∷◌, arith, ltb, leb, if◌then◌else◌, length, set, get_or, get_or-set_self, get_or-set_ne,
  ap,
}
use stellares_os.Kernel.Idt.{Machine, outb, run_handler, irq_install_handler, irq_handler}

-- The controllers that an interrupt of a line is acknowledged at, the last write first.
abbrev pub acknowledged : ℕ → List (ℕ × ℕ) → List (ℕ × ℕ)
acknowledged irq ports = (0x20, 0x20) ∷ (if leb 8 irq then (0xA0, 0x20) ∷ ports else ports)

module _ {ℓ} {S : Type ℓ} where
  -- An interrupt of line `irq`, opened.
  irq_handler-line :
      (irq : ℕ) (m : Machine S)
      → irq < 16
      → irq_handler (32 + irq) m
        ≡ run_handler (get_or m.handlers irq none) (record m { ports = acknowledged irq m.ports })
  unfolding irq_handler outb
  irq_handler-line irq m l =
      let inside : (leb 32 (32 + irq) && ltb (32 + irq - 32) 16) ≡ true = ground arith in
      let same : 32 + irq - 32 ≡ irq = omega arith in
      let second : leb 40 (32 + irq) ≡ leb 8 irq = ground arith in
      elim (Bool-cases (leb 8 irq)) [
        | inl e ↦ let first = second ∙ e in rw (inside, same, first, e) refl
        | inr e ↦ let first = second ∙ e in rw (inside, same, first, e) refl
      ]

  run_handler-state :
      (x : Option (S → S)) (t t' : Machine S)
      → t.state ≡ t'.state
      → (run_handler x t).state ≡ (run_handler x t').state
  run_handler-state none t t' e = e
  run_handler-state (some h) t t' e = ap h e

  installed :
      (irq : ℕ) (h : Option (S → S)) (m : Machine S)
      → irq < 16
      → irq_install_handler irq h m ≡ record m { handlers = set m.handlers irq h }
  unfolding irq_install_handler
  installed irq h m l =
      let inside : ltb irq 16 ≡ true = ground arith in rw (inside, irq_install_handler) refl

  -- Behind irq_install_handler of a line below 16, in a table of 16, an interrupt of this line runs the handler, and
  -- is acknowledged: at the second controller if the line is one of its eight, and then at the first. An interrupt of
  -- another line does what it did before.
  pub irq_handler-install :
      (irq : ℕ) (h : S → S) (m : Machine S)
      → irq < 16
      → length m.handlers ≡ 16
      → ((irq_handler (32 + irq) (irq_install_handler irq (some h) m)).state ≡ h m.state)
        × ((irq_handler (32 + irq) (irq_install_handler irq (some h) m)).ports
            ≡ acknowledged irq m.ports)
        × ((j : ℕ)
            → j < 16
            → j ≢ irq
            → (irq_handler (32 + j) (irq_install_handler irq (some h) m)).state
              ≡ (irq_handler (32 + j) m).state)
  irq_handler-install irq h m l size =
      let m1 : Machine S = record m { handlers = set m.handlers irq (some h) } in
      let at = installed irq (some h) m l in
      let own : get_or m1.handlers irq none ≡ some h =
        get_or-set_self m.handlers irq (some h) none (omega arith) in
      let runs = irq_handler-line irq m1 l in
      (
        ap (λ t. (irq_handler (32 + irq) t).state) at ∙ (ap (λ t. t.state) runs ∙ rw own refl),
        ap (λ t. (irq_handler (32 + irq) t).ports) at ∙ (ap (λ t. t.ports) runs ∙ rw own refl),
        λ j l' d.
            let kept : get_or m1.handlers j none ≡ get_or m.handlers j none =
              get_or-set_ne m.handlers irq j (some h) none (λ e. d (omega arith)) in
            ap (λ t. (irq_handler (32 + j) t).state) at
            ∙ (ap (λ t. t.state) (irq_handler-line j m1 l')
                ∙ (ap (λ x. (run_handler x (record m1 { ports = acknowledged j m.ports })).state)
                      kept
                    ∙ (run_handler-state (get_or m.handlers j none) _ _ refl
                        ∙ sym (ap (λ t. t.state) (irq_handler-line j m l'))))),
      )
