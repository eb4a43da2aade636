-- ===== src/Kernel/Elf.antt =====
-- kernel/elf_loader.c: the loader of ELF programs. The file, the stack of the program and its segments
-- all lie in one address space, `Memory`; a pointer is its address.
pub mod Bytes
pub mod Stack
pub mod Keep
mod Tests
pub mod Image
use stellares_os.Common.{
  ℕ, zero, suc, ◌+◌, ◌-◌, ◌*◌, ◌/◌, ◌%◌, ◌^◌, Bool, true, false, ◌&&◌, ◌||◌, not, Option, none,
  some, List, [], ◌∷◌, ◌++◌, ltb, leb, ◌==◌, if◌then◌else◌, length, take, replicate,
}
use stellares_os.Fs.Device.{BlockDevice}
use stellares_os.Fs.Disk.{State, read_file, exists}
use stellares_os.Fs.Ram.{Nodes, node_at, is_file, resolve}
use stellares_os.Kernel.Sched.{Sched, Layout, proc_create}
use Bytes.{Memory, load, load16, load32, put32, copy, clear, put_bytes}

pub data Result : Type 0 where
  ok not_elf not_32 not_exec no_mem no_file : Result

-- What `elf_load` looks at in the header at address `a`.
pub record Header : Type 0 where
  pub magic : ℕ
  pub class : ℕ
  pub type : ℕ
  pub machine : ℕ
  pub entry : ℕ
  pub phoff : ℕ
  pub phnum : ℕ

pub header : Memory → ℕ → Header
header m a = record {
  magic = load32 m a;
  class = load m (a + 4);
  type = load16 m (a + 16);
  machine = load16 m (a + 18);
  entry = load32 m (a + 24);
  phoff = load32 m (a + 28);
  phnum = load16 m (a + 44);
}

pub record Segment : Type 0 where
  pub type : ℕ
  pub offset : ℕ
  pub vaddr : ℕ
  pub filesz : ℕ
  pub memsz : ℕ

-- Entry `i` of the table of program headers at `a`; an entry has 32 bytes.
pub segment : Memory → ℕ → ℕ → Segment
segment m a i =
    let p = a + 32 * i in
    record {
      type = load32 m p;
      offset = load32 m (p + 4);
      vaddr = load32 m (p + 8);
      filesz = load32 m (p + 16);
      memsz = load32 m (p + 20);
    }

-- One round of the loop. The table is read again behind the copy, which may lie over it.
pub load_segment : ℕ → ℕ → ℕ → Memory → Memory
load_segment base table i m =
    let ph = segment m table i in
    if ph.type == 1
    then (let m' = copy m ph.vaddr (base + ph.offset) ph.filesz in
        let ph' = segment m' table i in
        if ltb ph'.filesz ph'.memsz
        then clear m' (ph'.vaddr + ph'.filesz) (ph'.memsz - ph'.filesz)
        else m')
    else m

-- `for (i = 0; i < hdr->e_phnum; i++)`, with the count read in every round.
pub load_from : ℕ → ℕ → ℕ → ℕ → Memory → Memory
load_from zero base table i m = m
load_from (suc k) base table i m = elim (ltb i (header m base).phnum) [
  | false ↦ m
  | true ↦ load_from k base table (i + 1) (load_segment base table i m)
]

-- The tests in front of the loop.
pub check : Memory → ℕ → ℕ → Result
check m base size =
    let h = header m base in
    if base == 0 || ltb size 52
    then not_elf
    else if not (h.magic == 0x464C457F)
    then not_elf
    else if not (h.class == 1)
    then not_32
    else if not (h.type == 2)
    then not_exec
    else if not (h.machine == 3)
    then not_32
    else ok

-- The result, the memory, and what goes to `*entry_out`. A count is below 2 ^ 16, and so are the rounds.
pub elf_load : ℕ → ℕ → Memory → Result × Memory × Option ℕ
elf_load base size m = elim (check m base size) [
  | ok ↦
      let m' = load_from 65536 base (base + (header m base).phoff) 0 m in
      (ok, m', some (header m' base).entry)
  | r ↦ (r, m, none)
]

-- The strings of the arguments, one behind the other from `at` on: the addresses of the first sixteen, and
-- the address behind them.
pub put_args : ℕ → ℕ → List (List ℕ) → Memory → List ℕ × ℕ × Memory
put_args zero at args m = ([], at, m)
put_args (suc k) at [] m = ([], at, m)
put_args (suc k) at (s ∷ args) m =
    let (ptrs, last, m') =
      put_args k ((at + length s + 1) % 2 ^ 32) args (put_bytes m at (s ++ (0 ∷ []))) in
    (at ∷ ptrs, last, m')

-- `*--sp = v`
pub push : ℕ → ℕ × Memory → ℕ × Memory
push v (sp, m) = let sp' = (sp + 2 ^ 32 - 4) % 2 ^ 32 in (sp', put32 m sp' v)

-- The last one first.
pub push_all : List ℕ → ℕ × Memory → ℕ × Memory
push_all [] s = s
push_all (p ∷ ps) s = push p (push_all ps s)

-- `((uint32_t)str_ptr + 3) & ~3`
pub align : ℕ → ℕ
align a = (a + 3) % 2 ^ 32 / 4 * 4

-- For at most sixteen arguments, as many as `arg_ptrs` holds.
pub setup_stack : ℕ → List (List ℕ) → Memory → ℕ × Memory
setup_stack top args m =
    let (ptrs, last, m') = put_args 16 ((top + 2 ^ 32 - 256) % 2 ^ 32) args m in
    push (length args) (push_all ptrs (push 0 (push 0 (push 0 (push 0 (align last, m'))))))

-- Where the linker puts the static arrays `elf_buf` and `proc_stack` (its end), and the code of
-- `elf_entry_trampoline`; and the addresses that neither the kernel nor anything it keeps lies at, from
-- `free_from` on and below `free_to`.
pub record Places : Type 0 where
  pub elf_buf : ℕ
  pub stack_top : ℕ
  pub trampoline : ℕ
  pub free_from : ℕ
  pub free_to : ℕ

-- Whether a segment is loaded over bytes that are not free.
pub strays : Places → Segment → Bool
strays at ph =
    let last = if ltb ph.filesz ph.memsz then ph.memsz else ph.filesz in
    ph.type == 1 && ltb 0 last && (ltb ph.vaddr at.free_from || ltb at.free_to (ph.vaddr + last))

-- The same for one of the segments, each as the rounds before it leave it.
pub strays_from : ℕ → Places → ℕ → ℕ → Memory → Bool
strays_from zero at table i m = false
strays_from (suc k) at table i m = elim (ltb i (header m at.elf_buf).phnum) [
  | false ↦ false
  | true ↦
      strays at (segment m table i)
      || strays_from k at table (i + 1) (load_segment at.elf_buf table i m)
]

-- The bytes of the arguments with their terminators; `setup_stack` has 256 for them.
pub args_length : List (List ℕ) → ℕ
args_length [] = 0
args_length (s ∷ args) = length s + 1 + args_length args

-- `elf_ctx_t`
pub record Pending : Type 0 where
  pub entry : ℕ
  pub stack_ptr : ℕ

module _ (b : BlockDevice) where
  -- What `elf_exec` reads and changes.
  pub record Machine : Type 0 where
    pub nodes : Nodes
    pub disk : State b
    pub sched : Sched
    pub memory : Memory
    pub pending : Pending
    pub unset : List ℕ

  -- `unset` is what the stack holds where `ramfs_resolve` sets no end.
  -- `n` and the bytes that come to stand in `elf_buf`. A buffer of zeros takes the place of what an
  -- earlier call left there, behind the bytes that count.
  pub file_bytes : Machine → List ℕ → Option (List ℕ)
  file_bytes s path =
      let on_disk : Option (List ℕ) =
        if s.disk.fs_ready && exists b path s.disk
        then (let (n, buf) = read_file b path (replicate 4096 0) 4096 s.disk in
            elim n [ none ↦ none | some k ↦ some (take k buf) ])
        else none in
      elim (resolve s.unset s.nodes path) [
        | none ↦ on_disk
        | some f ↦
            if is_file (node_at s.nodes f).type
            then some (take (node_at s.nodes f).size (node_at s.nodes f).bytes)
            else on_disk
      ]

  -- Whether `elf_exec` writes over bytes of the kernel: a segment is loaded there, or the arguments run over
  -- the end of the stack.
  pub spoils : Places → List ℕ → List (List ℕ) → Machine → Bool
  spoils at path args s = elim (file_bytes s path) [
    | none ↦ false
    | some bs ↦
        let m = put_bytes s.memory at.elf_buf bs in
        elim (check m at.elf_buf (length bs)) [
          | ok ↦
              ltb 256 (args_length args)
              || strays_from 65536 at (at.elf_buf + (header m at.elf_buf).phoff) 0 m
          | r ↦ false
        ]
  ]

  -- Behind a load that succeeds: the stack, the context that waits, and the process.
  pub start_program : Layout → Places → List ℕ → List (List ℕ) → Option ℕ → Machine → Machine
  start_program l at path args none s = s
  start_program l at path args (some entry) s =
      let (sp, m) = setup_stack at.stack_top args s.memory in
      let (pid, sched) = proc_create l path at.trampoline s.sched in
      record s { sched = sched; memory = m; pending = record { entry = entry; stack_ptr = sp } }

  pub loaded :
      Layout
      → Places
      → List ℕ
      → List (List ℕ)
      → Result × Memory × Option ℕ
      → Machine
      → Result × Machine
  loaded l at path args (ok, m, entry) s =
      (ok, start_program l at path args entry (record s { memory = m }))
  loaded l at path args (r, m, entry) s = (r, record s { memory = m })

  -- The null path is `none`.
  pub elf_exec : Layout → Places → Option (List ℕ) → List (List ℕ) → Machine → Result × Machine
  elf_exec l at none args s = (no_file, s)
  elf_exec l at (some path) args s = elim (file_bytes s path) [
    | none ↦ (no_file, s)
    | some [] ↦ (no_file, s)
    | some (c ∷ bs) ↦
        let s1 = record s { memory = put_bytes s.memory at.elf_buf (c ∷ bs) } in
        loaded l at path args (elf_load at.elf_buf (length (c ∷ bs)) s1.memory) s1
  ]
