-- ===== src/Kernel/Sched/Switch.antt =====
-- What a switch of kernel/scheduler.c does to every slot of the table.
use stellares_os.Common.{
  ℕ, zero, suc, ◌+◌, ◌-◌, ◌^◌, ◌<◌, ◌≤◌, ◌≡◌, ◌≢◌, refl, ap, ◌∙◌, sym, subst, inl, inr, List, [],
  ◌∷◌, arith, length, length-set, set, get_or, drop, ◌==◌, if◌then◌else◌, Bool-cases,
}
use stellares_os.Kernel.Sched.{
  Process, Sched, ready, running, is_running, state_at, proc_at, preempt, switch_to,
}
use stellares_os.Kernel.Sched.Context.{
  Stack, Cpu, top, below, push_all, pop_regs, pop_rest, context_switch,
}
use stellares_os.Kernel.Sched.Invariant.{IsValid, proc_at-set}

-- The stack of the slot that is left: the seven registers lie on it, `eax` at its end.
abbrev pub saved_stack : Cpu → Stack
saved_stack c = record {
  esp = c.stack.esp - 28;
  words =
      c.regs.eax ∷ c.regs.ecx ∷ c.regs.edx ∷ c.regs.ebx ∷ c.regs.ebp ∷ c.regs.esi ∷ c.regs.edi
      ∷ c.stack.words;
}

-- The processor behind the switch: the seven words at the end of the stack `k` are its registers, and the stack
-- is `k` without them.
pub record Loads (c : Cpu) (k : Stack) : Type 0 where
  pub eax_lem : c.regs.eax ≡ get_or k.words 0 0
  pub ecx_lem : c.regs.ecx ≡ get_or k.words 1 0
  pub edx_lem : c.regs.edx ≡ get_or k.words 2 0
  pub ebx_lem : c.regs.ebx ≡ get_or k.words 3 0
  pub ebp_lem : c.regs.ebp ≡ get_or k.words 4 0
  pub esi_lem : c.regs.esi ≡ get_or k.words 5 0
  pub edi_lem : c.regs.edi ≡ get_or k.words 6 0
  pub esp_lem : c.stack.esp ≡ k.esp + 28
  pub words_lem : c.stack.words ≡ drop 7 k.words

-- The slot that is left is ready if it was running, with its registers on its stack; the slot that is entered
-- runs, on the stack that it had saved; the others are as they were.
pub record Switched (s t : Sched) (next : ℕ) : Type 0 where
  pub entered : t.current_idx ≡ next
  pub runs : proc_at t.procs next ≡ record (proc_at s.procs next) { state = running }
  pub left : proc_at t.procs s.current_idx ≡ record (proc_at s.procs s.current_idx) {
    state =
        if is_running (state_at s.procs s.current_idx)
        then ready
        else state_at s.procs s.current_idx;
    stack = saved_stack s.cpu;
  }
  pub others : (i : ℕ) → i ≢ s.current_idx → i ≢ next → proc_at t.procs i ≡ proc_at s.procs i
  pub loaded : Loads t.cpu (proc_at s.procs next).stack

context_switch-saves : (c : Cpu) (k : Stack) → (context_switch c k).0 ≡ saved_stack c
unfolding context_switch push_all
context_switch-saves c k =
    let far : c.stack.esp - 4 - 4 - 4 - 4 - 4 - 4 - 4 ≡ c.stack.esp - 28 = omega arith in
    ap (λ e. record (saved_stack c) { esp = e }) far

preempt_lem :
    (p : Process) → preempt p ≡ record p { state = if is_running p.state then ready else p.state }
preempt_lem p = elim (Bool-cases (is_running p.state)) [ inl e ↦ rw e refl | inr e ↦ rw e refl ]

-- The words behind the last `n`.
abbrev beyond : ℕ → List ℕ → List ℕ
beyond zero ws = ws
beyond (suc n) ws = beyond n (below ws)

drop-nil : (n : ℕ) → Path (List ℕ) (drop n []) (drop (suc n) [])
drop-nil zero = refl
drop-nil (suc n) = refl

get_or-nil : (n : ℕ) → Path ℕ (get_or [] n 0) (get_or [] (suc n) 0)
get_or-nil zero = refl
get_or-nil (suc n) = refl

context_switch-Loads : (c : Cpu) (k : Stack) → Loads (context_switch c k).1 k
unfolding context_switch pop_regs pop_rest
context_switch-Loads c k = record {
  eax_lem = end k.words 0;
  ecx_lem = end k.words 1;
  edx_lem = end k.words 2;
  ebx_lem = end k.words 3;
  ebp_lem = end k.words 4;
  esi_lem = end k.words 5;
  edi_lem = end k.words 6;
  esp_lem = omega arith;
  words_lem = rest 7 k.words;
}
  where
    rest : (n : ℕ) (ws : List ℕ) → beyond n ws ≡ drop n ws
    rest zero ws = refl
    rest (suc n) [] = rest n [] ∙ drop-nil n
    rest (suc n) (w ∷ ws) = rest n ws

    end : (ws : List ℕ) (n : ℕ) → top (beyond n ws) ≡ get_or ws n 0
    end [] zero = refl
    end (w ∷ ws) zero = refl
    end [] (suc n) = end [] n ∙ get_or-nil n
    end (w ∷ ws) (suc n) = end ws n

-- A switch of a well-formed scheduler to another slot saves the registers on the stack of the old slot, makes it
-- ready if it was running, marks the new slot running, loads the registers and the stack that its words hold, and
-- leaves every other slot alone; where the old stack has room for the seven words, and the new one lies within the
-- addresses.
pub switch_to-Switched :
    (s : Sched) (next : ℕ)
    → IsValid s
    → next < 16
    → next ≢ s.current_idx
    → 28 ≤ s.cpu.stack.esp
    → (proc_at s.procs next).stack.esp + 28 < 2 ^ 32
    → Switched s (switch_to s next) next
unfolding switch_to
switch_to-Switched s next v hn ne room within = record {
  entered = refl;
  runs = ground (arith, sizes, final next, mid next, start next);
  left =
      ground (arith, sizes, final s.current_idx, mid s.current_idx, start s.current_idx, start next)
      ∙ ap {A = Stack} {B = Process}
          (λ k. record (preempt (proc_at s.procs s.current_idx)) { stack = k })
          (context_switch-saves s.cpu (proc_at s.procs next).stack)
      ∙ ap {A = Process} {B = Process} (λ p. record p { stack = saved_stack s.cpu })
          (preempt_lem (proc_at s.procs s.current_idx));
  others = λ i h k. ground (arith, sizes, final i, mid i, start i);
  loaded =
      subst (λ c. Loads c (proc_at s.procs next).stack) (sym same_cpu)
        (context_switch-Loads s.cpu (proc_at s.procs next).stack);
}
  where
    old : Process
    old = preempt (proc_at s.procs s.current_idx)

    ps : List Process
    ps = set s.procs s.current_idx old

    nxt : Process
    nxt = record (proc_at ps next) { state = running }

    qs : List Process
    qs = set ps next nxt

    was : Process
    was = record (proc_at qs s.current_idx) {
      stack = (context_switch s.cpu (proc_at ps next).stack).0;
    }

    sizes : (length s.procs ≡ 16) × (length ps ≡ 16) × (length qs ≡ 16)
    sizes = omega (arith, v.size, length-set s.procs s.current_idx old, length-set ps next nxt)

    start : (i : ℕ) → proc_at ps i ≡ (if s.current_idx == i then old else proc_at s.procs i)
    start i = proc_at-set s.procs s.current_idx i old (omega (arith, v.size, v.current))

    mid : (i : ℕ) → proc_at qs i ≡ (if next == i then nxt else proc_at ps i)
    mid i = proc_at-set ps next i nxt (omega (arith, sizes))

    final :
        (i : ℕ)
        → proc_at (set qs s.current_idx was) i ≡ (if s.current_idx == i then was else proc_at qs i)
    final i = proc_at-set qs s.current_idx i was (omega (arith, sizes, v.current))

    same_cpu : (switch_to s next).cpu ≡ (context_switch s.cpu (proc_at s.procs next).stack).1
    same_cpu = ground (arith, sizes, start next)
