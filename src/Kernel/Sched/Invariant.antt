-- ===== src/Kernel/Sched/Invariant.antt =====
-- The process table of kernel/scheduler.c stays well formed: one process runs, the current one.
use stellares_os.Common.{
  ℕ, zero, suc, ◌+◌, ◌%◌, ◌<◌, ◌≡◌, refl, ◌∙◌, ap, inl, inr, true, false, List, [], ◌∷◌, arith,
  Bool-cases, some, length, length-set, get_or-set, set, ◌==◌, if◌then◌else◌, Option-cases, subst,
  replicate, ◌^◌,
}
use stellares_os.Kernel.Sched.Context.{context_switch}
use stellares_os.Kernel.Sched.{
  Process, Sched, Layout, is_running, state_at, proc_at, blank, update, forced, asleep, killed,
  preempt, wake, wake_all, count_tick, charge, switch_to, reschedule, sched_tick, find_next_ready,
  proc_yield, proc_sleep, proc_exit, proc_kill, proc_create, new_process, dead_slot, pid_slot,
  sched_init, tail, spawn, running, idle,
}
use stellares_os.Kernel.Sched.Next.{find_next_ready-lt}

pub record IsValid (s : Sched) : Type 0 where
  pub size : length s.procs ≡ 16
  pub current : s.current_idx < 16
  pub only : (i : ℕ) → is_running (state_at s.procs i) ≡ true → i ≡ s.current_idx

-- A change of a slot that starts nothing.
abbrev KeepsStopped : (Process → Process) → Type 0
KeepsStopped f = (p : Process) → is_running (f p).state ≡ true → is_running p.state ≡ true

pub proc_at-set :
    (ps : List Process) (i j : ℕ) (p : Process)
    → i < length ps
    → proc_at (set ps i p) j ≡ (if i == j then p else proc_at ps j)
proc_at-set ps i j p h = get_or-set ps i j p blank h

update-IsValid :
    (s : Sched) (i : ℕ) (f : Process → Process)
    → i < 16
    → KeepsStopped f
    → IsValid s
    → IsValid (update i f s)
update-IsValid s i f hi k v = record {
  size = length-set s.procs i _ ∙ v.size;
  current = v.current;
  only = λ j h. v.only j (running_before j h);
}
  where
    running_before :
        (j : ℕ)
        → is_running (state_at (set s.procs i (f (proc_at s.procs i))) j) ≡ true
        → is_running (state_at s.procs j) ≡ true
    running_before j h =
        ground
          (arith, v.size, proc_at-set s.procs i j (f (proc_at s.procs i)), k (proc_at s.procs i))

pub length-wake_all : (now : ℕ) (ps : List Process) → length (wake_all now ps) ≡ length ps
unfolding wake_all
length-wake_all now [] = refl
length-wake_all now (p ∷ ps) = ap suc (length-wake_all now ps)

pub proc_at-wake_all :
    (now : ℕ) (ps : List Process) (i : ℕ) → proc_at (wake_all now ps) i ≡ wake now (proc_at ps i)
unfolding wake_all wake
proc_at-wake_all now [] i = refl
proc_at-wake_all now (p ∷ ps) zero = refl
proc_at-wake_all now (p ∷ ps) (suc i) = proc_at-wake_all now ps i

wake-KeepsStopped : (now : ℕ) → KeepsStopped (wake now)
unfolding wake
wake-KeepsStopped now p h = ground arith

woken : ℕ → Sched → Sched
woken now s = record s { procs = wake_all now s.procs }

woken-IsValid : (now : ℕ) (s : Sched) → IsValid s → IsValid (woken now s)
unfolding woken
woken-IsValid now s v = record {
  size = length-wake_all now s.procs ∙ v.size;
  current = v.current;
  only = λ i h. v.only i (
      wake-KeepsStopped now (proc_at s.procs i)
        (subst (λ p. is_running p.state ≡ true) (proc_at-wake_all now s.procs i) h));
}

pub charge-IsValid : (now : ℕ) (s : Sched) → IsValid s → IsValid (charge now s)
unfolding charge woken
charge-IsValid now s v =
    update-IsValid (woken now s) s.current_idx count_tick v.current (λ p h. h)
      (woken-IsValid now s v)

switch_to-IsValid : (s : Sched) (next : ℕ) → next < 16 → IsValid s → IsValid (switch_to s next)
unfolding switch_to
switch_to-IsValid s next hn v = record {
  size =
      length-set _ s.current_idx _
      ∙ length-set _ next _
      ∙ length-set s.procs s.current_idx _
      ∙ v.size;
  current = hn;
  only = λ i h. only_next i h;
}
  where
    old : Process
    old = preempt (proc_at s.procs s.current_idx)

    ps : List Process
    ps = set s.procs s.current_idx old

    nxt : Process
    nxt = record (proc_at ps next) { state = running }

    qs : List Process
    qs = set ps next nxt

    was : Process
    was = record (proc_at qs s.current_idx) {
      stack = (context_switch s.cpu (proc_at ps next).stack).0;
    }

    only_next : (i : ℕ) → is_running (state_at (set qs s.current_idx was) i) ≡ true → i ≡ next
    only_next i h = ground (
      arith,
      v.size,
      v.only i,
      length-set s.procs s.current_idx old,
      length-set ps next nxt,
      proc_at-set s.procs s.current_idx i old,
      proc_at-set s.procs s.current_idx s.current_idx old,
      proc_at-set ps next i nxt,
      proc_at-set ps next s.current_idx nxt,
      proc_at-set qs s.current_idx i was,
    )

reschedule-IsValid : (s : Sched) → IsValid s → IsValid (reschedule s)
unfolding reschedule
reschedule-IsValid s v = elim (Bool-cases (find_next_ready s == s.current_idx)) [
  | inl e ↦ rw e v
  | inr e ↦ rw e (switch_to-IsValid s (find_next_ready s) (find_next_ready-lt s) v)
]

-- A timer tick keeps the table well formed, whether or not it switches.
pub sched_tick-IsValid : (now : ℕ) (s : Sched) → IsValid s → IsValid (sched_tick now s)
unfolding sched_tick
sched_tick-IsValid now s v =
    ground (arith, v, charge-IsValid now s v, reschedule-IsValid (charge now s))

pub proc_yield-IsValid : (s : Sched) → IsValid s → IsValid (proc_yield s)
unfolding proc_yield
proc_yield-IsValid s v = update-IsValid s s.current_idx forced v.current (λ p h. h) v

asleep-KeepsStopped : (until : ℕ) → KeepsStopped (asleep until)
asleep-KeepsStopped until p h = cc

killed-KeepsStopped : KeepsStopped killed
killed-KeepsStopped p h = cc

-- proc_sleep keeps the scheduler well formed.
pub proc_sleep-IsValid : (ms now : ℕ) (s : Sched) → IsValid s → IsValid (proc_sleep ms now s)
unfolding proc_sleep
proc_sleep-IsValid ms now s v =
    let until = (now + ms) % 2 ^ 32 in
    proc_yield-IsValid (update s.current_idx (asleep until) s)
      (update-IsValid s s.current_idx (asleep until) v.current (asleep-KeepsStopped until) v)

-- proc_exit keeps the scheduler well formed.
pub proc_exit-IsValid : (s : Sched) → IsValid s → IsValid (proc_exit s)
unfolding proc_exit
proc_exit-IsValid s v =
    proc_yield-IsValid _ (update-IsValid s s.current_idx killed v.current killed-KeepsStopped v)

pid_slot-lt :
    (pid : ℕ) (ps : List Process) (i j : ℕ) → pid_slot pid ps i ≡ some j → j < i + length ps
unfolding pid_slot
pid_slot-lt pid [] i j h = cc
pid_slot-lt pid (p ∷ ps) i j h = ground (arith, pid_slot-lt pid ps (i + 1) j)

length-tail : (ps : List Process) → 0 < length ps → length (tail ps) + 1 ≡ length ps
length-tail [] h = absurd (omega arith)
length-tail (p ∷ ps) h = omega arith

-- proc_kill keeps the scheduler well formed, whatever the pid.
pub proc_kill-IsValid : (pid : ℕ) (s : Sched) → IsValid s → IsValid (proc_kill pid s)
unfolding proc_kill
proc_kill-IsValid pid s v = elim (Option-cases (pid_slot pid (tail s.procs) 1)) [
  | inl e ↦ rw (e, proc_kill) v
  | inr (i, e) ↦
      rw (e, proc_kill)
        (update-IsValid s i killed
          (omega (
            arith,
            v.size,
            length-tail s.procs (omega (arith, v.size)),
            pid_slot-lt pid (tail s.procs) 1 i e,
          ))
          killed-KeepsStopped v)
]

dead_slot-lt : (ps : List Process) (i j : ℕ) → dead_slot ps i ≡ some j → j < i + length ps
unfolding dead_slot
dead_slot-lt [] i j h = cc
dead_slot-lt (p ∷ ps) i j h = ground (arith, dead_slot-lt ps (i + 1) j)

new_process-stopped :
    (l : Layout) (i pid : ℕ) (name : List ℕ) (entry : ℕ)
    → KeepsStopped (λ _. new_process l i pid name entry)
unfolding new_process
new_process-stopped l i pid name entry p h = cc

renumbered : {s : Sched} (n : ℕ) → IsValid s → IsValid (record s { next_pid = n })
renumbered n v = record { size = v.size; current = v.current; only = v.only }

spawn-IsValid :
    (l : Layout) (name : List ℕ) (entry : ℕ) (s : Sched)
    → IsValid s
    → IsValid (spawn l name entry s).1
unfolding spawn
spawn-IsValid l name entry s v = elim (Option-cases (dead_slot (tail s.procs) 1)) [
  | inl f ↦ rw (f, spawn) v
  | inr (i, f) ↦
      rw (f, spawn)
        (renumbered _ (
          update-IsValid s i (λ _. new_process l i s.next_pid name entry) (slot_in i f)
            (new_process-stopped l i s.next_pid name entry) v))
]
  where
    slot_in : (i : ℕ) → dead_slot (tail s.procs) 1 ≡ some i → i < 16
    slot_in i f = omega (
      arith,
      v.size,
      length-tail s.procs (omega (arith, v.size)),
      dead_slot-lt (tail s.procs) 1 i f,
    )

-- proc_create keeps the scheduler well formed, whether it finds a slot or not.
pub proc_create-IsValid :
    (l : Layout) (name : List ℕ) (entry : ℕ) (s : Sched)
    → IsValid s
    → IsValid (proc_create l name entry s).1
unfolding proc_create
proc_create-IsValid l name entry s v = ground (arith, v, spawn-IsValid l name entry s v)

blank_stopped : (n j : ℕ) → is_running (state_at (replicate n blank) j) ≡ false
blank_stopped zero j = refl
blank_stopped (suc n) zero = refl
blank_stopped (suc n) (suc j) = blank_stopped n j

idle_only : (i : ℕ) → is_running (state_at (idle ∷ replicate 15 blank) i) ≡ true → i ≡ 0
idle_only zero h = refl
idle_only (suc i) h = cc (blank_stopped 15 i)

pub sched_init-IsValid : (s : Sched) → IsValid (sched_init s)
unfolding sched_init
sched_init-IsValid s = record { size = refl; current = omega arith; only = idle_only }
