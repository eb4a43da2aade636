-- ===== src/Kernel/Sched/Sleep.antt =====
-- Waking, sleeping and leaving in kernel/scheduler.c.
use stellares_os.Common.{
  ℕ, ◌+◌, ◌%◌, ◌^◌, ◌≤◌, ◌<◌, ◌≡◌, ◌≢◌, refl, ap, arith, length-set, set, ◌==◌, if◌then◌else◌, leb,
  true, ◌&&◌,
}
use stellares_os.Kernel.Sched.{
  Process, Sched, sleeping, ready, dead, is_ready, is_sleeping, state_at, proc_at, switch_to,
  reschedule, find_next_ready, sched_tick, charge, proc_exit, proc_yield, killed, forced, asleep,
  wake, wake_all, count_tick,
}
use stellares_os.Kernel.Sched.Next.{find_next_ready_picks}
use stellares_os.Kernel.Sched.Invariant.{
  IsValid, proc_at-set, proc_at-wake_all, length-wake_all, proc_exit-IsValid,
}

-- Before it switches, a tick wakes every sleeper whose deadline has come, and no other process; it
-- charges the current process one tick, and changes nothing else in the table.
pub proc_at-charge :
    (now : ℕ) (s : Sched) (i : ℕ)
    → IsValid s
    → proc_at (charge now s).procs i ≡ (
        let p = proc_at s.procs i in
        let w =
          if is_sleeping p.state && leb p.sleep_until now then record p { state = ready } else p in
        if s.current_idx == i then record w { ticks = (w.ticks + 1) % 2 ^ 32 } else w)
unfolding charge wake
proc_at-charge now s i v = ground (
  arith,
  v.size,
  v.current,
  length-wake_all now s.procs,
  proc_at-wake_all now s.procs i,
  proc_at-wake_all now s.procs s.current_idx,
  proc_at-set (wake_all now s.procs) s.current_idx i
      (count_tick (proc_at (wake_all now s.procs) s.current_idx)),
)

proc_at-exit :
    (s : Sched) (i : ℕ)
    → IsValid s
    → proc_at (proc_exit s).procs i ≡ (
        if s.current_idx == i
        then forced (killed (proc_at s.procs s.current_idx))
        else proc_at s.procs i)
unfolding proc_exit proc_yield
proc_at-exit s i v =
    let dying = killed (proc_at s.procs s.current_idx) in
    let ps = set s.procs s.current_idx dying in
    ground (
      arith,
      v.size,
      v.current,
      length-set s.procs s.current_idx dying,
      proc_at-set s.procs s.current_idx i dying,
      proc_at-set s.procs s.current_idx s.current_idx dying,
      proc_at-set ps s.current_idx i (forced (proc_at ps s.current_idx)),
    )

current-exit : (s : Sched) → (proc_exit s).current_idx ≡ s.current_idx
unfolding proc_exit proc_yield
current-exit s = refl

current-charge : (now : ℕ) (s : Sched) → (charge now s).current_idx ≡ s.current_idx
unfolding charge
current-charge now s = refl

current-reschedule :
    (s : Sched) → find_next_ready s ≢ s.current_idx → (reschedule s).current_idx ≡ find_next_ready s
unfolding reschedule switch_to
current-reschedule s ne = ground arith

initialized-exit : (s : Sched) → (proc_exit s).initialized ≡ s.initialized
unfolding proc_exit proc_yield
initialized-exit s = refl

-- The next tick completes the quantum of a process that exits, and finds its slot dead.
exited :
    (s : Sched) (now : ℕ)
    → IsValid s
    → let p = proc_at (charge now (proc_exit s)).procs s.current_idx in
      (p.state ≡ dead) × (p.ticks ≡ 20)
exited s now v = ground (
  arith,
  proc_at-charge now (proc_exit s) s.current_idx (proc_exit-IsValid s v),
  proc_at-exit s s.current_idx v,
  current-exit s,
)

still_ready :
    (s : Sched) (now j : ℕ)
    → IsValid s
    → j ≢ s.current_idx
    → state_at s.procs j ≡ ready
    → state_at (charge now (proc_exit s)).procs j ≡ ready
still_ready s now j v ne r = ground (
  arith,
  proc_at-charge now (proc_exit s) j (proc_exit-IsValid s v),
  proc_at-exit s j v,
  current-exit s,
)

ready_elsewhere :
    (t : Sched) (j : ℕ)
    → j < 16
    → state_at t.procs j ≡ ready
    → state_at t.procs t.current_idx ≡ dead
    → find_next_ready t ≢ t.current_idx
ready_elsewhere t j hj r d e = ground (
  arith,
  find_next_ready_picks t j hj (ap is_ready r),
  ap (λ i. is_ready (state_at t.procs i)) e,
  ap is_ready d,
)

-- A process that exits is off the processor at the next tick, if any other process is ready.
pub exit_leaves :
    (s : Sched) (now j : ℕ)
    → IsValid s
    → s.initialized ≡ true
    → j < 16
    → j ≢ s.current_idx
    → state_at s.procs j ≡ ready
    → (sched_tick now (proc_exit s)).current_idx ≢ s.current_idx
unfolding sched_tick
exit_leaves s now j v on hj ne r =
    let t = charge now (proc_exit s) in
    ground (
      arith,
      initialized-exit s,
      current-exit s,
      current-charge now (proc_exit s),
      exited s now v,
      ready_elsewhere t j hj (still_ready s now j v ne r),
      current-reschedule t,
    )

-- A deadline past the end of the clock's range wraps round: the sleeper is woken by the very next
-- tick, however long it asked to sleep.
pub sleep_wraps :
    (p : Process) (ms now : ℕ)
    → now < 2 ^ 32
    → ms < 2 ^ 32
    → 2 ^ 32 ≤ now + ms
    → (wake now (asleep ((now + ms) % 2 ^ 32) p)).state ≡ ready
unfolding wake
sleep_wraps p ms now hn hm h = ground arith

-- Otherwise the sleeper stays asleep until its deadline, and is woken from then on.
pub sleep_wakes :
    (p : Process) (ms now later : ℕ)
    → now + ms < 2 ^ 32
    → (wake later (asleep ((now + ms) % 2 ^ 32) p)).state
      ≡ (if leb (now + ms) later then ready else sleeping)
unfolding wake
sleep_wakes p ms now later h = ground arith
