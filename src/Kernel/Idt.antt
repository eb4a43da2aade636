-- ===== src/Kernel/Idt.antt =====
-- kernel/idt.c: the table of interrupt gates, the interrupts of the devices, and the panic screen; and
-- drivers/pit.c, whose handler is that of line 0. A machine is the gates, the handlers of the sixteen lines, the
-- writes to ports so far (the last first), and what the handlers change. The addresses of the assembly's entries
-- are a parameter.
pub mod Gates
pub mod Lines
mod Tests
use stellares_os.Common.{
  ℕ, zero, suc, ◌+◌, ◌-◌, ◌*◌, ◌/◌, ◌%◌, ◌^◌, Bool, true, false, ◌&&◌, ◌||◌, Option, none, some,
  List, [], ◌∷◌, ltb, leb, ◌==◌, if◌then◌else◌, set, get_or, codes,
}
use stellares_os.Libc.Number.{itoa, int_to_hex}
use stellares_os.Drivers.Vga.{Screen, color, clear, draw_hline, puts_at}

-- `idt_entry_t`
pub record Gate : Type 0 where
  pub base_low : ℕ
  pub sel : ℕ
  pub always0 : ℕ
  pub flags : ℕ
  pub base_high : ℕ

-- `idt_gate`
pub idt_gate : ℕ → ℕ → ℕ → ℕ → List Gate → List Gate
idt_gate n base sel flags idt = set idt n (record {
  base_low = base % 2 ^ 16;
  sel = sel;
  always0 = 0;
  flags = flags;
  base_high = base / 2 ^ 16 % 2 ^ 16;
})

-- The gates of the vectors from `n` on, `c` of them, as the source sets them one by one.
pub gates_from : ℕ → ℕ → (ℕ → ℕ) → List Gate → List Gate
gates_from zero n entry idt = idt
gates_from (suc c) n entry idt = gates_from c (n + 1) entry (idt_gate n (entry n) 0x08 0x8E idt)

-- The entries of the exceptions, of the sixteen lines, and of the system calls.
pub init_gates : (ℕ → ℕ) → List Gate → List Gate
unfolding gates_from
init_gates entry idt = idt_gate 128 (entry 128) 0x08 0xEE (gates_from 48 0 entry idt)

module _ {ℓ} (S : Type ℓ) where
  pub record Machine : Type ℓ where
    pub gates : List Gate
    pub handlers : List (Option (S → S))
    pub ports : List (ℕ × ℕ)
    pub state : S

module _ {ℓ} {S : Type ℓ} where
  pub outb : ℕ → ℕ → Machine S → Machine S
  outb port value m = record m { ports = (port, value) ∷ m.ports }

  -- The controllers are moved to the vectors from 32 on, and the lines 0 and 1 are let through.
  pub remap_pic : Machine S → Machine S
  unfolding outb
  remap_pic m =
      let m1 = outb 0xA0 0x11 (outb 0x20 0x11 m) in
      let m2 = outb 0xA1 0x28 (outb 0x21 0x20 m1) in
      let m3 = outb 0xA1 0x02 (outb 0x21 0x04 m2) in
      let m4 = outb 0xA1 0x01 (outb 0x21 0x01 m3) in outb 0xA1 0xFF (outb 0x21 0xFC m4)

  pub idt_init : (ℕ → ℕ) → Machine S → Machine S
  unfolding remap_pic init_gates
  idt_init entry m = let m1 = remap_pic m in record m1 { gates = init_gates entry m1.gates }

  -- `irq` is not negative.
  pub irq_install_handler : ℕ → Option (S → S) → Machine S → Machine S
  irq_install_handler irq h m =
      if ltb irq 16 then record m { handlers = set m.handlers irq h } else m

  abbrev pub run_handler : Option (S → S) → Machine S → Machine S
  run_handler none m = m
  run_handler (some h) m = record m { state = h m.state }

  -- `int_no` is unsigned: the line of a vector below 32 is negative.
  pub irq_handler : ℕ → Machine S → Machine S
  unfolding outb
  irq_handler int_no m =
      let m1 = if leb 40 int_no then outb 0xA0 0x20 m else m in
      let m2 = outb 0x20 0x20 m1 in
      if leb 32 int_no && ltb (int_no - 32) 16
      then run_handler (get_or m2.handlers (int_no - 32) none) m2
      else m2

-- The texts of the exceptions.
abbrev pub exceptions : List (List ℕ)
exceptions =
    codes "Divisao por Zero"
    ∷ codes "Debug"
    ∷ codes "NMI"
    ∷ codes "Breakpoint"
    ∷ codes "Overflow"
    ∷ codes "Bound Range"
    ∷ codes "Opcode Invalido"
    ∷ codes "FPU Ausente"
    ∷ codes "Double Fault"
    ∷ codes "FPU Seg Overrun"
    ∷ codes "TSS Invalido"
    ∷ codes "Segmento Ausente"
    ∷ codes "Stack Fault"
    ∷ codes "Falha de Protecao"
    ∷ codes "Page Fault"
    ∷ codes "Reservado"
    ∷ codes "Erro FPU"
    ∷ codes "Alinhamento"
    ∷ codes "Machine Check"
    ∷ codes "SIMD FP"
    ∷ codes "Virtualizacao"
    ∷ codes "R"
    ∷ codes "R"
    ∷ codes "R"
    ∷ codes "R"
    ∷ codes "R"
    ∷ codes "R"
    ∷ codes "R"
    ∷ codes "R"
    ∷ codes "R"
    ∷ codes "Seguranca"
    ∷ codes "R"
    ∷ []

-- The part of `isr_handler` behind a system call, which Kernel/Syscall/Dispatch models: what the screen shows
-- when the machine halts. The lines for the serial port are not kept.
pub panic_screen : ℕ → ℕ → ℕ → Screen → Screen
panic_screen int_no eip err_code scr =
    let a = color 15 4 in
    let hi = color 14 4 in
    let name = if ltb int_no 32 then get_or exceptions int_no [] else codes "Desconhecido" in
    let s1 = draw_hline 0 0 80 32 a (clear a scr) in
    let s2 = puts_at 25 0 (codes "*** STELLARESOS KERNEL PANIC ***") hi s1 in
    let s3 = draw_hline 1 0 80 0xCD (color 12 4) s2 in
    let s4 = puts_at 11 3 name hi (puts_at 2 3 (codes "Excecao:") a s3) in
    let s5 = puts_at 11 4 (itoa int_no 10) hi (puts_at 2 4 (codes "INT num:") a s4) in
    let s6 = puts_at 11 5 (int_to_hex eip) hi (puts_at 2 5 (codes "EIP:    ") a s5) in
    let s7 = puts_at 11 6 (int_to_hex err_code) hi (puts_at 2 6 (codes "Err:    ") a s6) in
    let s8 = draw_hline 8 0 80 0xCD (color 12 4) s7 in
    puts_at 2 10 (codes "Sistema travado. Reinicie o computador.") a s8

-- drivers/pit.c: the ticks since the start, and their frequency.
pub record Timer : Type 0 where
  pub tick : ℕ
  pub hz : ℕ

pub tick_handler : Timer → Timer
tick_handler t = record t { tick = (t.tick + 1) % 2 ^ 32 }

-- The frequency is not 0.
pub pit_init : ℕ → Machine Timer → Machine Timer
unfolding tick_handler outb irq_install_handler
pit_init f m =
    let d = 1193180 / f in
    let m1 : Machine Timer = record m { state = record (m.state) { hz = f } } in
    let m2 = outb 0x40 (d % 256) (outb 0x43 0x36 m1) in
    irq_install_handler 0 (some tick_handler) (outb 0x40 (d / 2 ^ 8 % 256) m2)

pub pit_seconds : Timer → ℕ
pit_seconds t = t.tick / t.hz
