-- ===== src/Kernel/Syscall/Dispatch/Keep.antt =====
-- The descriptors that every call of kernel/syscall.c keeps.
use stellares_os.Common.{
  ℕ, ◌<◌, ◌≤◌, ◌≡◌, ap, ◌∙◌, inl, inr, true, false, ◌||◌, Option, none, some, List, arith, length,
  length-set, get_or-set, get_or-set_ne, set, ltb, leb, ◌==◌, if◌then◌else◌, Bool-cases,
  Option-cases,
}
use stellares_os.Fs.Device.{BlockDevice}
use stellares_os.Fs.Ram.{Nodes}
use stellares_os.Kernel.Syscall.{
  Fd, closed, fd_at, fd_alloc, open_file, open_node, open_with, read_node, write_node, System, sync,
  sys_exit, sys_read, read_keys, sys_write, sys_open, sys_close,
}
use stellares_os.Kernel.Syscall.Files.{fd_alloc-closed}
use stellares_os.Kernel.Syscall.Dispatch.{
  Request, read_stdin, answer, overruns, Outcome, returns, waits, spills, outcome_of,
  syscall_handler,
}

-- The table has sixteen descriptors, and the first three are open and have no file.
pub record IsTable (fds : List Fd) : Type 0 where
  pub size : length fds ≡ 16
  pub standard : (i : ℕ) → i < 3 → ((fd_at fds i).used ≡ true) × ((fd_at fds i).node ≡ none)

-- A descriptor above the standard ones may change in any way.
set-IsTable : (fds : List Fd) (n : ℕ) (d : Fd) → 3 ≤ n → IsTable fds → IsTable (set fds n d)
set-IsTable fds n d l h = record {
  size = length-set fds n d ∙ h.size;
  standard = λ i k.
      let e : fd_at (set fds n d) i ≡ fd_at fds i =
        get_or-set_ne fds n i d closed (λ q. omega arith) in
      (ap (λ x. x.used) e ∙ (h.standard i k).0, ap (λ x. x.node) e ∙ (h.standard i k).1);
}

-- Any descriptor may move its offset.
moved-IsTable :
    (fds : List Fd) (n offset : ℕ)
    → n < 16
    → IsTable fds
    → IsTable (set fds n (record (fd_at fds n) { offset = offset }))
moved-IsTable fds n offset l h =
    let d = record (fd_at fds n) { offset = offset } in
    record {
      size = length-set fds n d ∙ h.size;
      standard = λ i k. (used i ∙ (h.standard i k).0, node i ∙ (h.standard i k).1);
    }
  where
    at :
        (i : ℕ)
        → fd_at (set fds n (record (fd_at fds n) { offset = offset })) i
          ≡ (if n == i then record (fd_at fds n) { offset = offset } else fd_at fds i)
    at i =
        get_or-set fds n i (record (fd_at fds n) { offset = offset }) closed (omega (arith, h.size))

    used :
        (i : ℕ)
        → (fd_at (set fds n (record (fd_at fds n) { offset = offset })) i).used ≡ (fd_at fds i).used
    used i = ground (arith, at i, (λ (e : n ≡ i). ap (λ k. (fd_at fds k).used) e))

    node :
        (i : ℕ)
        → (fd_at (set fds n (record (fd_at fds n) { offset = offset })) i).node ≡ (fd_at fds i).node
    node i = ground (arith, at i, (λ (e : n ≡ i). ap (λ k. (fd_at fds k).node) e))

open_file_range : (fd f : ℕ) (fds : List Fd) → open_file fd fds ≡ some f → fd < 16
unfolding open_file
open_file_range fd f fds e = ground arith

sys_read-IsTable :
    (fd : ℕ) (buf : Option (List ℕ)) (count : ℕ) (fds : List Fd) (ns : Nodes)
    → IsTable fds
    → IsTable (sys_read fd buf count fds ns).2
unfolding sys_read read_node
sys_read-IsTable fd none count fds ns h = h
sys_read-IsTable fd (some buf) count fds ns h = elim (Bool-cases (count == 0)) [
  | inl e ↦ rw (e, sys_read) h
  | inr e ↦ elim (Option-cases (open_file fd fds)) [
    | inl f ↦ rw (e, f, sys_read) h
    | inr (i, f) ↦ rw (e, f, sys_read) (moved-IsTable fds fd _ (open_file_range fd i fds f) h)
  ]
]

open_with-IsTable :
    (i flags : ℕ) (fds : List Fd) (r : Option ℕ × Nodes)
    → 3 ≤ i
    → IsTable fds
    → IsTable (open_with i flags fds r).1
unfolding open_with
open_with-IsTable i flags fds (none, ns) l h = h
open_with-IsTable i flags fds (some f, ns) l h = set-IsTable fds i _ l h

sys_open-IsTable :
    (rest : List ℕ) (path : Option (List ℕ)) (flags : ℕ) (fds : List Fd) (ns : Nodes)
    → IsTable fds
    → IsTable (sys_open rest path flags fds ns).1
unfolding sys_open
sys_open-IsTable rest none flags fds ns h = h
sys_open-IsTable rest (some path) flags fds ns h = elim (Option-cases (fd_alloc fds)) [
  | inl e ↦ rw (e, sys_open) h
  | inr (i, e) ↦
      rw (e, sys_open)
        (open_with-IsTable i flags fds (open_node rest ns path flags)
          (fd_alloc-closed fds i h.size e).0 h)
]

sys_close-IsTable : (fd : ℕ) (fds : List Fd) → IsTable fds → IsTable (sys_close fd fds)
unfolding sys_close
sys_close-IsTable fd fds h = elim (Bool-cases (ltb fd 3 || leb 16 fd)) [
  | inl e ↦ rw (e, sys_close) h
  | inr e ↦ elim (Bool-cases (fd_at fds fd).used) [
    | inr u ↦ rw (e, u, sys_close) h
    | inl u ↦ rw (e, u, sys_close) (set-IsTable fds fd _ (ground arith) h)
  ]
]

module _ {b : BlockDevice} where
  -- The descriptors of the system behind the switch, which is over or still waits for a key.
  abbrev IsAnswered : Option (ℕ × Option (List ℕ) × System b) → Type 0
  IsAnswered none = Unit
  IsAnswered (some (v, out, s)) = IsTable s.fds

  -- The descriptors of the system behind a call that returns.
  abbrev pub IsKept : Outcome b → Type 0
  IsKept (returns v out s) = IsTable s.fds
  IsKept waits = Unit
  IsKept spills = Unit

  sync_fds : (f : ℕ) (s : System b) → (sync b f s).fds ≡ s.fds
  unfolding sync
  sync_fds f s = elim (Bool-cases s.disk.fs_ready) [ inl e ↦ rw (e, sync) | inr e ↦ rw (e, sync) ]

  sys_write-IsTable :
      (fd : ℕ) (buf : Option (List ℕ)) (count : ℕ) (s : System b)
      → IsTable s.fds
      → IsTable (sys_write b fd buf count s).1.fds
  unfolding sys_write write_node
  sys_write-IsTable fd none count s h = h
  sys_write-IsTable fd (some buf) count s h = elim (Bool-cases (count == 0)) [
    | inl e ↦ rw (e, sys_write) h
    | inr e ↦ elim (Bool-cases (fd == 1 || fd == 2)) [
      | inl g ↦ rw (e, g, sys_write) h
      | inr g ↦ elim (Option-cases (open_file fd s.fds)) [
        | inl f ↦ rw (e, g, f, sys_write) h
        | inr (i, f) ↦
            rw (e, g, f, sys_write)
              (rw (sync_fds i) (moved-IsTable s.fds fd _ (open_file_range fd i s.fds f) h))
      ]
    ]
  ]

  read_stdin-IsAnswered :
      (buf : Option (List ℕ)) (count : ℕ) (keys : List ℕ) (s : System b)
      → IsTable s.fds
      → IsAnswered (read_stdin buf count keys s)
  unfolding read_stdin
  read_stdin-IsAnswered none count keys s h = h
  read_stdin-IsAnswered (some buf) count keys s h = elim (Bool-cases (count == 0)) [
    | inl e ↦ rw (e, read_stdin) h
    | inr e ↦ elim (Option-cases (read_keys count keys)) [
      | inl f ↦ rw (e, f, read_stdin) tt
      | inr (got, f) ↦ rw (e, f, read_stdin) h
    ]
  ]

  -- The calls from 6 on, which change no file.
  late-IsAnswered :
      (r : Request) (s : System b)
      → (r.eax == 1 || r.eax == 252) ≡ false
      → (r.eax == 3) ≡ false
      → (r.eax == 4) ≡ false
      → (r.eax == 5) ≡ false
      → IsTable s.fds
      → IsAnswered (answer r s)
  unfolding answer
  late-IsAnswered r s n1 n3 n4 n5 h = elim (Bool-cases (r.eax == 6)) [
    | inl e ↦ rw (n1, n3, n4, n5, e, answer) (sys_close-IsTable r.ebx s.fds h)
    | inr n6 ↦ elim (Bool-cases (r.eax == 20)) [
      | inl e ↦ rw (n1, n3, n4, n5, n6, e, answer) h
      | inr n20 ↦ elim (Bool-cases (r.eax == 45)) [
        | inl e ↦ rw (n1, n3, n4, n5, n6, n20, e, answer) h
        | inr n45 ↦ elim (Bool-cases (r.eax == 122)) [
          | inl e ↦ rw (n1, n3, n4, n5, n6, n20, n45, e, answer) h
          | inr n122 ↦ rw (n1, n3, n4, n5, n6, n20, n45, n122, answer) h
        ]
      ]
    ]
  ]

  answer-IsAnswered : (r : Request) (s : System b) → IsTable s.fds → IsAnswered (answer r s)
  unfolding answer sys_exit
  answer-IsAnswered r s h = elim (Bool-cases (r.eax == 1 || r.eax == 252)) [
    | inl e ↦ rw (e, answer) h
    | inr n1 ↦ elim (Bool-cases (r.eax == 3)) [
      | inl e ↦ elim (Bool-cases (r.ebx == 0)) [
        | inl z ↦ rw (n1, e, z, answer) (read_stdin-IsAnswered r.bytes r.edx r.keys s h)
        | inr z ↦ rw (n1, e, z, answer) (sys_read-IsTable r.ebx r.bytes r.edx s.fds s.nodes h)
      ]
      | inr n3 ↦ elim (Bool-cases (r.eax == 4)) [
        | inl e ↦ rw (n1, n3, e, answer) (sys_write-IsTable r.ebx r.bytes r.edx s h)
        | inr n4 ↦ elim (Bool-cases (r.eax == 5)) [
          | inl e ↦ rw (n1, n3, n4, e, answer) (sys_open-IsTable r.stack _ r.ecx s.fds s.nodes h)
          | inr n5 ↦ late-IsAnswered r s n1 n3 n4 n5 h
        ]
      ]
    ]
  ]

  outcome_of-IsKept :
      (o : Option (ℕ × Option (List ℕ) × System b)) → IsAnswered o → IsKept (outcome_of o)
  unfolding outcome_of
  outcome_of-IsKept none h = tt
  outcome_of-IsKept (some (v, out, s)) h = h

  -- Every system call that returns, and that has written within the array at its pointer, the bytes of its file and
  -- the local arrays, keeps the table of sixteen descriptors and the three standard ones open and without a file; the
  -- array at its pointer lies apart from the kernel's memory.
  pub syscall_handler-IsKept :
      (r : Request) (s : System b) → IsTable s.fds → IsKept (syscall_handler r s)
  unfolding syscall_handler
  syscall_handler-IsKept r s h = elim (Bool-cases (overruns r s)) [
    | inl e ↦ rw (e, syscall_handler) tt
    | inr e ↦ rw (e, syscall_handler) (outcome_of-IsKept (answer r s) (answer-IsAnswered r s h))
  ]
