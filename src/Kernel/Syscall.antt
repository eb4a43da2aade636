-- ===== src/Kernel/Syscall.antt =====
-- kernel/syscall.c: the system calls. A result is the bit pattern of `eax`, so an error is 2 ^ 32 minus
-- its number. A buffer in the program's memory is a list of bytes, `none` for the null pointer; the
-- lines that go to the serial port are not kept.
pub mod Files
pub mod Dispatch
mod Tests
use stellares_os.Common.{
  ℕ, zero, suc, ◌+◌, ◌-◌, ◌*◌, ◌/◌, ◌%◌, ◌^◌, Bool, true, false, ◌&&◌, ◌||◌, not, Option, none,
  some, List, [], ◌∷◌, ◌++◌, ltb, leb, ◌==◌, if◌then◌else◌, set, get_or, take, drop, replicate,
  length, codes,
}
use stellares_os.Libc.Str.{memcpy}
use stellares_os.Fs.Device.{BlockDevice}
use stellares_os.Fs.Disk.{State, write_file}
use stellares_os.Fs.Ram.{Node, Nodes, node_at, resolve, create}
use stellares_os.Kernel.Sched.{Sched, proc_exit, proc_current}
use stellares_os.Drivers.Vga.{Screen, putchar}

pub record Fd : Type 0 where
  pub used : Bool
  pub flags : ℕ
  pub offset : ℕ
  pub node : Option ℕ

abbrev pub closed : Fd
closed = record { used = false; flags = 0; offset = 0; node = none }

abbrev pub fd_at : List Fd → ℕ → Fd
fd_at fds i = get_or fds i closed

-- Descriptors 0, 1 and 2 have no node.
pub fd_init : List Fd
fd_init =
    let special : Fd = record closed { used = true } in
    special ∷ special ∷ special ∷ replicate 13 closed

-- `for (i = 3; i < MAX_FDS; i++) if (!fds[i].used) return i`
pub fd_alloc_from : List Fd → ℕ → Option ℕ
fd_alloc_from [] i = none
fd_alloc_from (d ∷ fds) i = if d.used then fd_alloc_from fds (i + 1) else some i

pub fd_alloc : List Fd → Option ℕ
unfolding fd_alloc_from
fd_alloc fds = fd_alloc_from (drop 3 fds) 3

abbrev pub errno : ℕ → ℕ
errno n = 2 ^ 32 - n

-- `last - path`: the length up to and with the last slash.
pub dir_length : List ℕ → ℕ → ℕ → ℕ
dir_length [] i last = last
dir_length (c ∷ s) i last = dir_length s (i + 1) (if c == 47 then i + 1 else last)

pub set_size : Nodes → ℕ → ℕ → Nodes
set_size ns f size = set ns f (record (node_at ns f) { size = size })

-- `rest` is what the stack holds where `ramfs_resolve` sets no end.
-- `ramfs_resolve`, and where it finds nothing and O_CREAT is set, `ramfs_create` in the directory of the
-- path, or in the root; for a directory of at most 255 bytes and a name of at most 63.
pub open_node : List ℕ → Nodes → List ℕ → ℕ → Option ℕ × Nodes
unfolding dir_length
open_node rest ns path flags =
    let n = dir_length path 0 0 in
    let dir = if n == 0 then 47 ∷ [] else take n path in
    let parent : ℕ = elim (resolve rest ns dir) [ none ↦ 0 | some p ↦ p ] in
    elim (resolve rest ns path) [
      | some f ↦ (some f, ns)
      | none ↦ if flags / 64 % 2 == 1 then create ns parent (drop n path) else (none, ns)
    ]

pub opened : Nodes → ℕ → ℕ → Fd
opened ns f flags = record {
  used = true;
  flags = flags;
  offset = if flags / 1024 % 2 == 1 then (node_at ns f).size else 0;
  node = some f;
}

pub truncated : Nodes → ℕ → ℕ → Nodes
unfolding set_size
truncated ns f flags = if flags / 512 % 2 == 1 then set_size ns f 0 else ns

pub open_with : ℕ → ℕ → List Fd → Option ℕ × Nodes → ℕ × List Fd × Nodes
unfolding opened truncated
open_with i flags fds (none, ns) = (errno 2, fds, ns)
open_with i flags fds (some f, ns) = (i, set fds i (opened ns f flags), truncated ns f flags)

pub sys_open : List ℕ → Option (List ℕ) → ℕ → List Fd → Nodes → ℕ × List Fd × Nodes
unfolding open_with open_node
sys_open rest none flags fds ns = (errno 2, fds, ns)
sys_open rest (some path) flags fds ns = elim (fd_alloc fds) [
  | none ↦ (errno 24, fds, ns)
  | some i ↦ open_with i flags fds (open_node rest ns path flags)
]

pub sys_close : ℕ → List Fd → List Fd
sys_close fd fds =
    if ltb fd 3 || leb 16 fd
    then fds
    else if (fd_at fds fd).used
    then set fds fd (record (fd_at fds fd) { used = false; node = none })
    else fds

-- `f->size - fds[fd].offset`, of two `uint32_t`.
abbrev pub avail : Node → Fd → ℕ
avail f d = (f.size + 2 ^ 32 - d.offset) % 2 ^ 32

abbrev pub least : ℕ → ℕ → ℕ
least a b = if ltb a b then a else b

-- `fd < MAX_FDS && fds[fd].used && fds[fd].node`
pub open_file : ℕ → List Fd → Option ℕ
open_file fd fds = if ltb fd 16 && (fd_at fds fd).used then (fd_at fds fd).node else none

-- `sys_read` of a file: the count, the program's buffer and the descriptors.
pub read_node : ℕ → ℕ → List ℕ → ℕ → List Fd → Nodes → ℕ × List ℕ × List Fd
read_node f fd buf count fds ns =
    let d = fd_at fds fd in
    let n = least count (avail (node_at ns f) d) in
    (
      n,
      memcpy buf (drop d.offset (node_at ns f).bytes) n,
      set fds fd (record d { offset = (d.offset + n) % 2 ^ 32 }),
    )

-- `sys_read` of a descriptor other than 0.
pub sys_read : ℕ → Option (List ℕ) → ℕ → List Fd → Nodes → ℕ × Option (List ℕ) × List Fd
unfolding open_file read_node
sys_read fd none count fds ns = (0, none, fds)
sys_read fd (some buf) count fds ns =
    if count == 0 then (0, some buf, fds) else elim (open_file fd fds) [
      | none ↦ (0, some buf, fds)
      | some f ↦ let (n, out, fds') = read_node f fd buf count fds ns in (n, some out, fds')
    ]

-- `sys_read` of descriptor 0, over the keys that come: the bytes that are stored, or `none` while more
-- keys are awaited.
pub read_keys : ℕ → List ℕ → Option (List ℕ)
read_keys zero keys = some []
read_keys (suc n) [] = none
read_keys (suc n) (c ∷ keys) =
    let rest = read_keys n keys in
    if c == 10 then some (c % 256 ∷ []) else elim rest [ none ↦ none | some s ↦ some (c % 256 ∷ s) ]

-- The bytes of a file behind `memcpy(f->data + offset, buf, n)`.
pub patch : List ℕ → ℕ → List ℕ → ℕ → List ℕ
patch bytes offset buf n = take offset bytes ++ memcpy (drop offset bytes) buf n

-- `sys_write` to a file, without the copy to the disk, at an offset of at most 4096.
pub write_node : ℕ → ℕ → List ℕ → ℕ → List Fd → Nodes → ℕ × List Fd × Nodes
unfolding patch
write_node f fd buf count fds ns =
    let d = fd_at fds fd in
    let node = node_at ns f in
    let n = least count ((4096 + 2 ^ 32 - d.offset) % 2 ^ 32) in
    let offset = (d.offset + n) % 2 ^ 32 in
    (
      n,
      set fds fd (record d { offset = offset }),
      set ns f (record node {
        bytes = patch node.bytes d.offset buf n;
        size = if ltb node.size offset then offset else node.size;
      }),
    )

pub print : ℕ → List ℕ → Screen → Screen
print zero buf s = s
print (suc n) [] s = s
print (suc n) (c ∷ buf) s = print n buf (putchar c s)

pub sys_brk : ℕ → ℕ → ℕ × ℕ
sys_brk addr heap_end =
    if addr == 0
    then (heap_end, heap_end)
    else if ltb heap_end addr
    then (addr, addr)
    else (heap_end, heap_end)

module _ (b : BlockDevice) where
  pub record System : Type 0 where
    pub fds : List Fd
    pub nodes : Nodes
    pub disk : State b
    pub sched : Sched
    pub screen : Screen
    pub heap_end : ℕ

  -- `if (diskfs_ready()) diskfs_write(f->name, f->data, f->size)`
  pub sync : ℕ → System → System
  sync f s =
      let n = node_at s.nodes f in
      if s.disk.fs_ready
      then record s { disk = (write_file b n.name n.bytes n.size s.disk).1 }
      else s

  -- For an offset of at most 4096: from a later one the code writes over the memory behind the file, which
  -- `overruns` tells apart before the call.
  pub sys_write : ℕ → Option (List ℕ) → ℕ → System → ℕ × System
  unfolding sync print write_node open_file
  sys_write fd none count s = (0, s)
  sys_write fd (some buf) count s =
      if count == 0
      then (0, s)
      else if fd == 1 || fd == 2
      then (count, record s { screen = print count buf s.screen })
      else elim (open_file fd s.fds) [
        | none ↦ (errno 9, s)
        | some f ↦
            let (n, fds', nodes') = write_node f fd buf count s.fds s.nodes in
            (n, sync f (record s { fds = fds'; nodes = nodes' }))
      ]

  pub sys_exit : System → ℕ × System
  sys_exit s = (0, record s { sched = proc_exit s.sched })

  pub sys_getpid : System → ℕ
  sys_getpid s = (proc_current s.sched).pid
