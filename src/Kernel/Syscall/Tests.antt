-- ===== src/Kernel/Syscall/Tests.antt =====
-- Descriptors on one file.
use stellares_os.Common.{
  zero, suc, ◌<◌, false, none, codes, ℕ, ◌≡◌, refl, true, some, List, [], ◌∷◌, arith, length,
}
use stellares_os.Fs.Ram.{Nodes, no_node, file}
use stellares_os.Kernel.Syscall.{
  System, Fd, closed, fd_at, fd_init, fd_alloc, fd_alloc_from, read_node,
}
use stellares_os.Kernel.Sched.Context.{Regs, no_stack}
use stellares_os.Fs.Device.Memory.{memory}
use stellares_os.Fs.Disk.Table.{fresh_super}
use stellares_os.Kernel.Syscall.Dispatch.{Request, syscall_handler}
use stellares_os.Kernel.Syscall.Dispatch.Keep.{IsTable, IsKept, syscall_handler-IsKept}
use stellares_os.Kernel.Syscall.Files.{read_past_end}

first_alloc : fd_alloc fd_init ≡ some 3
unfolding fd_alloc fd_alloc_from fd_init
first_alloc = refl

init_length : length fd_init ≡ 16
unfolding fd_init
init_length = refl

abbrev files : Nodes
files = record no_node { type = file; size = 2; bytes = 7 ∷ 8 ∷ 9 ∷ [] } ∷ []

abbrev fds_at : ℕ → List Fd
fds_at n = record closed { used = true; offset = n; node = some 0 } ∷ []

abbrev out : List ℕ
out = 0 ∷ 0 ∷ 0 ∷ []

read_past_end_example : (read_node 0 0 out 3 (fds_at 5) files).0 ≡ 3
read_past_end_example =
    read_past_end 0 0 out 3 (fds_at 5) files (omega arith) (omega arith) (omega arith)

abbrev regs : Regs
regs = record { edi = 0; esi = 0; ebp = 0; ebx = 0; edx = 0; ecx = 0; eax = 0 }

abbrev system : System memory
system = record {
  fds = fd_init;
  nodes = files;
  disk = record {
    behind_super = [];
    super = fresh_super;
    inodes = [];
    fs_ready = false;
    disk = λ a. 0;
  };
  sched = record {
    procs = [];
    current_idx = 0;
    next_pid = 1;
    initialized = false;
    cpu = record { regs = regs; stack = no_stack };
  };
  screen = record { cells = []; col = 0; row = 0; attr = 7 };
  heap_end = 0x1000000;
}

init_standard : (i : ℕ) → i < 3 → ((fd_at fd_init i).used ≡ true) × ((fd_at fd_init i).node ≡ none)
unfolding fd_init
init_standard zero l = (refl, refl)
init_standard (suc zero) l = (refl, refl)
init_standard (suc (suc zero)) l = (refl, refl)
init_standard (suc (suc (suc i))) l = absurd (omega arith)

fd_init-IsTable : IsTable fd_init
fd_init-IsTable = record { size = init_length; standard = init_standard }

-- open("/", O_APPEND)
abbrev request : Request
request = record {
  eax = 5;
  ebx = 0;
  ecx = 1024;
  edx = 0;
  bytes = some (codes "/");
  keys = [];
  stack = [];
}

syscall_handler-IsKept_example : IsKept (syscall_handler request system)
syscall_handler-IsKept_example = syscall_handler-IsKept request system fd_init-IsTable
