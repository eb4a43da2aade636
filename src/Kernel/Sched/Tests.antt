-- ===== src/Kernel/Sched/Tests.antt =====
-- The scheduler on a table with two processes.
use stellares_os.Common.{
  ◌+◌, ◌*◌, ◌%◌, ◌^◌, ◌<◌, ◌≤◌, ◌≡◌, ◌≢◌, refl, ◌⊎◌, true, false, [], ◌∷◌, arith,
}
use stellares_os.Kernel.Sched.Context.{Regs, Cpu}
use stellares_os.Kernel.Sched.{
  ready, Sched, Layout, state_at, proc_at, sched_init, dead_slot, first_stack, new_process, spawn,
  proc_create, find_next_ready, sched_tick, switch_to, proc_exit,
}
use stellares_os.Kernel.Sched.Next.{Nearest, NoneReady, find_next_ready-Nearest}
use stellares_os.Kernel.Sched.Invariant.{
  IsValid, sched_init-IsValid, proc_create-IsValid, sched_tick-IsValid,
}
use stellares_os.Kernel.Sched.Switch.{Switched, switch_to-Switched}
use stellares_os.Kernel.Sched.Sleep.{exit_leaves}

abbrev regs : Regs
regs = record { edi = 1; esi = 2; ebp = 3; ebx = 4; edx = 5; ecx = 6; eax = 7 }

abbrev cpu : Cpu
cpu = record { regs = regs; stack = record { esp = 0x9000; words = 5 ∷ [] } }

abbrev boot : Sched
boot = record { procs = []; current_idx = 0; next_pid = 1; initialized = false; cpu = cpu }

abbrev layout : Layout
layout = record { proc_exit_addr = 0x1000; stack_addr = λ i. 0x20000 + i * 8192 }

-- The idle process runs and slot 1 is ready.
abbrev two : Sched
two = (proc_create layout (97 ∷ []) 0x5000 (sched_init boot)).1

two-IsValid : IsValid two
two-IsValid =
    proc_create-IsValid layout (97 ∷ []) 0x5000 (sched_init boot) (sched_init-IsValid boot)

two_ready : state_at two.procs 1 ≡ ready
unfolding proc_create spawn dead_slot new_process first_stack sched_init
two_ready = refl

two_current : two.current_idx ≡ 0
unfolding proc_create spawn dead_slot new_process first_stack sched_init
two_current = refl

two_initialized : two.initialized ≡ true
unfolding proc_create spawn dead_slot new_process first_stack sched_init
two_initialized = refl

find_next_ready-Nearest_example :
    let i = (two.current_idx + 1) % 16 in
    Nearest two.procs i 16 (find_next_ready two)
    ⊎ (NoneReady two.procs i 16 × (find_next_ready two ≡ 0))
find_next_ready-Nearest_example = find_next_ready-Nearest two

sched_tick-IsValid_example : IsValid (sched_tick 7 two)
sched_tick-IsValid_example = sched_tick-IsValid 7 two two-IsValid

one_other : 1 ≢ two.current_idx
one_other e = absurd (omega (arith, e, two_current))

two_room : 28 ≤ two.cpu.stack.esp
unfolding proc_create spawn dead_slot new_process first_stack sched_init
two_room = omega arith

two_within : (proc_at two.procs 1).stack.esp + 28 < 2 ^ 32
unfolding proc_create spawn dead_slot new_process first_stack sched_init
two_within = omega arith

switch_to-Switched_example : Switched two (switch_to two 1) 1
switch_to-Switched_example =
    switch_to-Switched two 1 two-IsValid (omega arith) one_other two_room two_within

exit_leaves_example : (sched_tick 7 (proc_exit two)).current_idx ≢ two.current_idx
exit_leaves_example =
    exit_leaves two 7 1 two-IsValid two_initialized (omega arith) one_other two_ready
