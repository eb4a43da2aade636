-- ===== src/Kernel/Sched.antt =====
-- kernel/scheduler.c: the process table and the round-robin scheduler. Time (`pit_ticks()`) is an
-- argument of the functions that read it. The two waiting loops (`while (state == PROC_SLEEPING)
-- hlt`, `for (;;) hlt`) change no state of their own: what happens there are the later ticks.
pub mod Context
pub mod Next
pub mod Invariant
pub mod Switch
pub mod Sleep
mod Tests
use mathlib.Core.List.{map}
use stellares_os.Common.{
  ℕ, zero, suc, ◌+◌, ◌-◌, ◌%◌, ◌^◌, Bool, true, false, ◌&&◌, not, Option, none, some, List, [], ◌∷◌,
  ltb, leb, ◌==◌, if◌then◌else◌, get_or, set, take, replicate,
}
use Context.{Cpu, Stack, context_switch, no_stack}

pub data ProcState : Type 0 where
  dead ready running sleeping blocked : ProcState

abbrev pub is_dead : ProcState → Bool
is_dead dead = true
is_dead _ = false

abbrev pub is_ready : ProcState → Bool
is_ready ready = true
is_ready _ = false

abbrev pub is_running : ProcState → Bool
is_running running = true
is_running _ = false

abbrev pub is_sleeping : ProcState → Bool
is_sleeping sleeping = true
is_sleeping _ = false

-- `process_t`; `stack` holds `esp` and the words above it.
pub record Process : Type 0 where
  pub pid : ℕ
  pub name : List ℕ
  pub state : ProcState
  pub ticks : ℕ
  pub sleep_until : ℕ
  pub stack : Stack
  pub stack_base : ℕ

abbrev pub max_procs : ℕ
max_procs = 16

-- A slot after `memset(..., 0, ...)`.
abbrev pub blank : Process
blank = record {
  pid = 0;
  name = [];
  state = dead;
  ticks = 0;
  sleep_until = 0;
  stack = no_stack;
  stack_base = 0;
}

-- The static variables of the file, and the processor.
pub record Sched : Type 0 where
  pub procs : List Process
  pub current_idx : ℕ
  pub next_pid : ℕ
  pub initialized : Bool
  pub cpu : Cpu

abbrev pub proc_at : List Process → ℕ → Process
proc_at ps i = get_or ps i blank

abbrev pub state_at : List Process → ℕ → ProcState
state_at ps i = (proc_at ps i).state

abbrev pub idle : Process
idle = record blank { state = running; name = b'i' ∷ b'd' ∷ b'l' ∷ b'e' ∷ [] }

-- `next_pid` keeps its value.
pub sched_init : Sched → Sched
sched_init s = record s { procs = idle ∷ replicate 15 blank; current_idx = 0; initialized = true }

-- `for (i = 1; i < MAX_PROCS; i++) if (procs[i].state == PROC_DEAD) { slot = i; break; }`
pub dead_slot : List Process → ℕ → Option ℕ
dead_slot [] i = none
dead_slot (p ∷ ps) i = if is_dead p.state then some i else dead_slot ps (i + 1)

abbrev pub tail : List Process → List Process
tail [] = []
tail (p ∷ ps) = ps

-- The addresses that the linker gives: `proc_exit`, and the stack of each slot.
pub record Layout : Type 0 where
  pub proc_exit_addr : ℕ
  pub stack_addr : ℕ → ℕ

-- The first frame: seven zeros for the registers, the entry point, and `proc_exit` to return to.
pub first_stack : Layout → ℕ → ℕ → Stack
first_stack l slot entry = record {
  esp = l.stack_addr slot + 8192 - 36;
  words = 0 ∷ 0 ∷ 0 ∷ 0 ∷ 0 ∷ 0 ∷ 0 ∷ entry ∷ l.proc_exit_addr ∷ [];
}

pub new_process : Layout → ℕ → ℕ → List ℕ → ℕ → Process
new_process l slot pid name entry = record blank {
  pid = pid;
  name = take 23 name;
  state = ready;
  stack = first_stack l slot entry;
  stack_base = l.stack_addr slot;
}

-- The part of `proc_create` behind its first test.
pub spawn : Layout → List ℕ → ℕ → Sched → Option ℕ × Sched
spawn l name entry s = elim (dead_slot (tail s.procs) 1) [
  | none ↦ (none, s)
  | some slot ↦ (
    some s.next_pid,
    record s {
      procs = set s.procs slot (new_process l slot s.next_pid name entry);
      next_pid = (s.next_pid + 1) % 2 ^ 32;
    },
  )
]

-- `none` is the return value -1.
pub proc_create : Layout → List ℕ → ℕ → Sched → Option ℕ × Sched
proc_create l name entry s = if not s.initialized then (none, s) else spawn l name entry s

-- `while (n--) { if (procs[i].state == PROC_READY) return i; i = (i + 1) % MAX_PROCS; }`
pub scan_ready : List Process → ℕ → ℕ → ℕ
scan_ready ps zero i = 0
scan_ready ps (suc n) i =
    if is_ready (state_at ps i) then i else scan_ready ps n ((i + 1) % max_procs)

pub find_next_ready : Sched → ℕ
find_next_ready s = scan_ready s.procs max_procs ((s.current_idx + 1) % max_procs)

pub wake : ℕ → Process → Process
wake now p = if is_sleeping p.state && leb p.sleep_until now then record p { state = ready } else p

pub wake_all : ℕ → List Process → List Process
unfolding wake
wake_all now [] = []
wake_all now (p ∷ ps) = wake now p ∷ wake_all now ps

abbrev pub count_tick : Process → Process
count_tick p = record p { ticks = (p.ticks + 1) % 2 ^ 32 }

abbrev pub preempt : Process → Process
preempt p = if is_running p.state then record p { state = ready } else p

-- The switch from slot `current_idx` to slot `next`.
pub switch_to : Sched → ℕ → Sched
switch_to s next =
    let old = proc_at s.procs s.current_idx in
    let ps = set s.procs s.current_idx (preempt old) in
    let nxt = proc_at ps next in
    let (saved, cpu') = context_switch s.cpu nxt.stack in
    let qs = set ps next (record nxt { state = running }) in
    record s {
      procs = set qs s.current_idx (record (proc_at qs s.current_idx) { stack = saved });
      current_idx = next;
      cpu = cpu';
    }

-- The ticks before the switch: sleepers are woken, and the running process is charged.
pub charge : ℕ → Sched → Sched
charge now s =
    let ps = wake_all now s.procs in
    record s { procs = set ps s.current_idx (count_tick (proc_at ps s.current_idx)) }

pub reschedule : Sched → Sched
reschedule s = let next = find_next_ready s in if next == s.current_idx then s else switch_to s next

pub sched_tick : ℕ → Sched → Sched
sched_tick now s =
    if not s.initialized
    then s
    else (let t = charge now s in
        if (proc_at t.procs t.current_idx).ticks % 20 == 0 then reschedule t else t)

-- Every change of one slot.
abbrev pub update : ℕ → (Process → Process) → Sched → Sched
update i f s = record s { procs = set s.procs i (f (proc_at s.procs i)) }

abbrev pub forced : Process → Process
forced p = record p { ticks = 19 }

pub proc_yield : Sched → Sched
proc_yield s = update s.current_idx forced s

abbrev pub asleep : ℕ → Process → Process
asleep until p = record p { state = sleeping; sleep_until = until }

pub proc_sleep : ℕ → ℕ → Sched → Sched
proc_sleep ms now s = proc_yield (update s.current_idx (asleep ((now + ms) % 2 ^ 32)) s)

abbrev pub killed : Process → Process
killed p = record p { state = dead }

pub proc_exit : Sched → Sched
proc_exit s = proc_yield (update s.current_idx killed s)

-- The first slot from `i` on with this pid.
pub pid_slot : ℕ → List Process → ℕ → Option ℕ
pid_slot pid [] i = none
pid_slot pid (p ∷ ps) i = if p.pid == pid then some i else pid_slot pid ps (i + 1)

-- Slot 0 is passed over.
pub proc_kill : ℕ → Sched → Sched
proc_kill pid s = elim (pid_slot pid (tail s.procs) 1) [ none ↦ s | some i ↦ update i killed s ]

pub proc_current : Sched → Process
proc_current s = proc_at s.procs s.current_idx

pub proc_get : ℕ → Sched → Option ℕ
proc_get pid s = pid_slot pid s.procs 0

pub count_live : List Process → ℕ
count_live [] = 0
count_live (p ∷ ps) = if is_dead p.state then count_live ps else suc (count_live ps)

pub proc_count : Sched → ℕ
proc_count s = count_live s.procs
