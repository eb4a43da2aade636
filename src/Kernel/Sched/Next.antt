-- ===== src/Kernel/Sched/Next.antt =====
-- Which process `find_next_ready` of kernel/scheduler.c picks.
use stellares_os.Common.{
  ℕ, zero, suc, ◌+◌, ◌-◌, ◌%◌, ◌<◌, ◌≡◌, refl, ◌∙◌, ◌⊎◌, inl, inr, true, false, List, arith,
  Bool-cases,
}
use stellares_os.Kernel.Sched.{Process, Sched, is_ready, state_at, scan_ready, find_next_ready}

-- `j` is the first ready slot among the `n` slots from `i` on, going round at the table's end.
pub record Nearest (ps : List Process) (i n j : ℕ) : Type 0 where
  pub distance : ℕ
  pub in_range : distance < n
  pub place : j ≡ (i + distance) % 16
  pub picked : is_ready (state_at ps j) ≡ true
  pub passed : (k : ℕ) → k < distance → is_ready (state_at ps ((i + k) % 16)) ≡ false

abbrev pub NoneReady : List Process → ℕ → ℕ → Type 0
NoneReady ps i n = (k : ℕ) → k < n → is_ready (state_at ps ((i + k) % 16)) ≡ false

abbrev Found : List Process → ℕ → ℕ → ℕ → Type 0
Found ps i n j = Nearest ps i n j ⊎ (NoneReady ps i n × (j ≡ 0))

-- The slot after `i`, and then `k` more.
shift : (i k : ℕ) → ((i + 1) % 16 + k) % 16 ≡ (i + suc k) % 16
shift i k = omega arith

passed-suc :
    (ps : List Process) (i n : ℕ)
    → i < 16
    → is_ready (state_at ps i) ≡ false
    → NoneReady ps ((i + 1) % 16) n
    → NoneReady ps i (suc n)
passed-suc ps i n hi e h zero hk = let p : (i + 0) % 16 ≡ i = omega arith in rw p e
passed-suc ps i n hi e h (suc k) hk = rw (← shift i k) (h k (omega arith))

Nearest-suc :
    (ps : List Process) (i n j : ℕ)
    → i < 16
    → is_ready (state_at ps i) ≡ false
    → Nearest ps ((i + 1) % 16) n j
    → Nearest ps i (suc n) j
Nearest-suc ps i n j hi e h = record {
  distance = suc h.distance;
  in_range = omega (arith, h.in_range);
  place = h.place ∙ shift i h.distance;
  picked = h.picked;
  passed = passed-suc ps i h.distance hi e h.passed;
}

scan_ready-Found : (ps : List Process) (n i : ℕ) → i < 16 → Found ps i n (scan_ready ps n i)
unfolding scan_ready
scan_ready-Found ps zero i h = inr ((λ k hk. absurd (omega arith)), refl)
scan_ready-Found ps (suc n) i h = elim (Bool-cases (is_ready (state_at ps i))) [
  | inl e ↦ rw e (
      inl (record {
        distance = 0;
        in_range = omega arith;
        place = omega arith;
        picked = e;
        passed = λ k hk. absurd (omega arith);
      }))
  | inr e ↦ rw e (elim (scan_ready-Found ps n ((i + 1) % 16) (omega arith)) [
    | inl f ↦ inl (Nearest-suc ps i n _ h e f)
    | inr f ↦ inr (passed-suc ps i n h e f.0, f.1)
  ])
]

-- The scheduler picks the first ready slot behind the current one, going round the whole table and
-- the current slot last; it falls back to slot 0 only if no slot at all is ready.
pub find_next_ready-Nearest :
    (s : Sched)
    → let i = (s.current_idx + 1) % 16 in
      Nearest s.procs i 16 (find_next_ready s) ⊎ (NoneReady s.procs i 16 × (find_next_ready s ≡ 0))
unfolding find_next_ready
find_next_ready-Nearest s = scan_ready-Found s.procs 16 ((s.current_idx + 1) % 16) (omega arith)

-- Going round from `i`, every slot is met.
met :
    (ps : List Process) (i j : ℕ)
    → i < 16
    → j < 16
    → NoneReady ps i 16
    → is_ready (state_at ps j) ≡ false
met ps i j hi hj h =
    let p : (i + (j + 16 - i) % 16) % 16 ≡ j = omega arith in
    rw p at (h ((j + 16 - i) % 16) (omega arith))

-- So if any slot of the table is ready, the process that is picked is ready.
pub find_next_ready_picks :
    (s : Sched) (j : ℕ)
    → j < 16
    → is_ready (state_at s.procs j) ≡ true
    → is_ready (state_at s.procs (find_next_ready s)) ≡ true
find_next_ready_picks s j hj e = elim (find_next_ready-Nearest s) [
  | inl f ↦ f.picked
  | inr f ↦ cc (met s.procs ((s.current_idx + 1) % 16) j (omega arith) hj f.0)
]

pub find_next_ready-lt : (s : Sched) → find_next_ready s < 16
find_next_ready-lt s = elim (find_next_ready-Nearest s) [
  | inl f ↦ omega (arith, f.place)
  | inr f ↦ omega (arith, f.1)
]
