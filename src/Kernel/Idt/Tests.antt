-- ===== src/Kernel/Idt/Tests.antt =====
-- A table of gates, and an interrupt of the timer.
use stellares_os.Common.{ℕ, ◌+◌, ◌≤◌, ◌<◌, ◌≡◌, ◌≢◌, refl, none, some, [], arith, replicate}
use stellares_os.Kernel.Idt.{
  Gate, Machine, outb, idt_init, irq_install_handler, irq_handler, Timer, tick_handler, pit_init,
}
use stellares_os.Kernel.Idt.Gates.{gate_at, LeadsTo, idt_init-LeadsTo}
use stellares_os.Kernel.Idt.Lines.{acknowledged, irq_handler-install}

abbrev empty : Gate
empty = record { base_low = 0; sel = 0; always0 = 0; flags = 0; base_high = 0 }

abbrev entry : ℕ → ℕ
entry i = 0x00100000

abbrev machine : Machine Timer
machine = record {
  gates = replicate 256 empty;
  handlers = replicate 16 none;
  ports = [];
  state = record { tick = 41; hz = 1000 };
}

idt_init-LeadsTo_example :
    ((k : ℕ) → k < 48 → LeadsTo (entry k) 0x8E (gate_at (idt_init entry machine).gates k))
    × LeadsTo (entry 128) 0xEE (gate_at (idt_init entry machine).gates 128)
    × ((k : ℕ)
        → 48 ≤ k
        → k ≢ 128
        → gate_at (idt_init entry machine).gates k ≡ gate_at machine.gates k)
idt_init-LeadsTo_example = idt_init-LeadsTo entry machine refl (λ i. omega arith)

irq_handler-install_example :
    ((irq_handler (32 + 8) (irq_install_handler 8 (some tick_handler) machine)).state
      ≡ tick_handler machine.state)
    × ((irq_handler (32 + 8) (irq_install_handler 8 (some tick_handler) machine)).ports
        ≡ acknowledged 8 machine.ports)
    × ((j : ℕ)
        → j < 16
        → j ≢ 8
        → (irq_handler (32 + j) (irq_install_handler 8 (some tick_handler) machine)).state
          ≡ (irq_handler (32 + j) machine).state)
irq_handler-install_example = irq_handler-install 8 tick_handler machine (omega arith) refl

-- The timer counts the interrupts of line 0.
timer_ticks : (irq_handler 32 (pit_init 1000 machine)).state ≡ record { tick = 42; hz = 1000 }
unfolding irq_handler pit_init irq_install_handler tick_handler outb
timer_ticks = refl
