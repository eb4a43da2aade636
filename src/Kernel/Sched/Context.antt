-- ===== src/Kernel/Sched/Context.antt =====
-- `context_switch` of kernel/scheduler.c: the inline assembly, on a stack of words that grows down.
use stellares_os.Common.{ℕ, ◌+◌, ◌-◌, ◌≤◌, ◌≡◌, List, [], ◌∷◌, arith}

-- `esp`, and the words at `esp`, `esp + 4`, ...
pub record Stack : Type 0 where
  pub esp : ℕ
  pub words : List ℕ

abbrev pub no_stack : Stack
no_stack = record { esp = 0; words = [] }

pub record Regs : Type 0 where
  pub edi : ℕ
  pub esi : ℕ
  pub ebp : ℕ
  pub ebx : ℕ
  pub edx : ℕ
  pub ecx : ℕ
  pub eax : ℕ

pub record Cpu : Type 0 where
  pub regs : Regs
  pub stack : Stack

abbrev pub push : ℕ → Stack → Stack
push w s = record { esp = s.esp - 4; words = w ∷ s.words }

abbrev pub top : List ℕ → ℕ
top [] = 0
top (w ∷ ws) = w

abbrev pub below : List ℕ → List ℕ
below [] = []
below (w ∷ ws) = ws

abbrev pub pop : Stack → Stack
pop s = record { esp = s.esp + 4; words = below s.words }

-- `push edi` ... `push eax`
unfoldable pub push_all : Regs → Stack → Stack
push_all r s =
    push r.eax (push r.ecx (push r.edx (push r.ebx (push r.ebp (push r.esi (push r.edi s))))))

-- `pop eax` ... `pop edi`
unfoldable pub pop_regs : Stack → Regs
pop_regs s0 =
    let s1 = pop s0 in
    let s2 = pop s1 in
    let s3 = pop s2 in
    let s4 = pop s3 in
    let s5 = pop s4 in
    let s6 = pop s5 in
    record {
      eax = top s0.words;
      ecx = top s1.words;
      edx = top s2.words;
      ebx = top s3.words;
      ebp = top s4.words;
      esi = top s5.words;
      edi = top s6.words;
    }

unfoldable pub pop_rest : Stack → Stack
pop_rest s = pop (pop (pop (pop (pop (pop (pop s))))))

-- The stack that goes to `*save_esp`, and the processor behind the last `pop`.
unfoldable pub context_switch : Cpu → Stack → Stack × Cpu
context_switch c load =
    (push_all c.regs c.stack, record { regs = pop_regs load; stack = pop_rest load })

-- A process that is switched away from and later switched back to finds its registers and its stack
-- as they were, whatever ran between: the stack below must have room for the seven words.
pub context_switch_back :
    (c d : Cpu) (load : Stack)
    → 28 ≤ c.stack.esp
    → (context_switch d (context_switch c load).0).1 ≡ c
unfolding context_switch push_all pop_regs pop_rest
context_switch_back c d load h = ground arith
