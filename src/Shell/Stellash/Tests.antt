-- ===== src/Shell/Stellash/Tests.antt =====
-- A few commands in a fresh tree.
use stellares_os.Common.{
  arith, ◌≡◌, refl, some, false, [], ◌∷◌, codes, replicate, ltb, if◌then◌else◌,
}
use stellares_os.Libc.Str.{strlen}
use stellares_os.Fs.Device.Memory.{memory}
use stellares_os.Fs.Disk.Table.{fresh_super}
use stellares_os.Fs.Ram.{file, Nodes, node_at, no_node}
use stellares_os.Fs.Ram.Init.{init, init-IsValid}
use stellares_os.Kernel.Sched.{sched_init}
use stellares_os.Kernel.Sched.Context.{Regs, no_stack}
use stellares_os.Shell.Stellash.{Shell}
use stellares_os.Shell.Stellash.Input.{readline}
use stellares_os.Shell.Stellash.Input.Bounds.{readline-IsValid, IsLine}
use stellares_os.Shell.Stellash.Commands.{copy_to}
use stellares_os.Shell.Stellash.Commands.Keep.{IsValid}
use stellares_os.Shell.Stellash.Commands.Copies.{copy_to_empty}

abbrev regs : Regs
regs = record { edi = 0; esi = 0; ebp = 0; ebx = 0; edx = 0; ecx = 0; eax = 0 }

abbrev shell : Shell memory
shell = record {
  logged_user = codes "stella";
  logged_home = 47 ∷ [];
  cwd_node = 0;
  cwd_path = 47 ∷ [];
  hist = replicate 20 (replicate 512 0);
  hist_n = 0;
  hist_p = 0;
  input = replicate 512 0;
  ilen = 0;
  nodes = init (replicate 128 no_node);
  disk = record {
    behind_super = [];
    super = fresh_super;
    inodes = [];
    fs_ready = false;
    disk = λ a. 0;
  };
  sched = sched_init (record {
    procs = [];
    current_idx = 0;
    next_pid = 0;
    initialized = false;
    cpu = record { regs = regs; stack = no_stack };
  });
  screen = record { cells = []; col = 0; row = 0; attr = 7 };
  seconds = 3;
  unset = λ k. [];
}

shell-IsValid : IsValid shell
shell-IsValid =
    let v = init-IsValid (replicate 128 no_node) refl in record { valid = v; in_dir = v.root }

abbrev two_files : Nodes
two_files =
    record no_node { type = file } ∷ record no_node { type = file; bytes = replicate 4096 0 } ∷ []

copy_to_empty_example :
    (node_at (copy_to 0 (some 1) (7 ∷ 8 ∷ 0 ∷ []) two_files) 1).size
    ≡ (if ltb 4096 (strlen (7 ∷ 8 ∷ 0 ∷ [])) then 4096 else strlen (7 ∷ 8 ∷ 0 ∷ []))
copy_to_empty_example = copy_to_empty two_files 0 1 (7 ∷ 8 ∷ 0 ∷ []) refl refl refl

empty-IsLine : IsLine shell.input shell.ilen
empty-IsLine = record { size = refl; ended = refl; range = omega arith }

readline-IsValid_example :
    IsLine
      (readline (108 ∷ 115 ∷ 0x100 ∷ 8 ∷ 10 ∷ []) shell).1.input
      (readline (108 ∷ 115 ∷ 0x100 ∷ 8 ∷ 10 ∷ []) shell).1.ilen
readline-IsValid_example = readline-IsValid (108 ∷ 115 ∷ 0x100 ∷ 8 ∷ 10 ∷ []) shell empty-IsLine
