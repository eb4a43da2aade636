-- ===== src/Shell/Stellash/Execute/Tests.antt =====
-- Two lines entered in a fresh tree.
use stellares_os.Common.{false, [], ◌∷◌, codes, replicate}
use stellares_os.Fs.Device.Memory.{memory}
use stellares_os.Fs.Disk.Table.{fresh_super}
use stellares_os.Fs.Ram.{no_node}
use stellares_os.Fs.Ram.Init.{init}
use stellares_os.Kernel.Sched.{sched_init}
use stellares_os.Kernel.Sched.Context.{Regs, no_stack}
use stellares_os.Shell.Stellash.{Shell}
use stellares_os.Shell.Stellash.Input.{hist_push}
use stellares_os.Shell.Stellash.Commands.{cmd_mkdir, cmd_cd}
use stellares_os.Shell.Stellash.Execute.{Outside, Session}
use stellares_os.Shell.Stellash.Execute.Reach.{Reach}

abbrev regs : Regs
regs = record { edi = 0; esi = 0; ebp = 0; ebx = 0; edx = 0; ecx = 0; eax = 0 }

abbrev shell : Shell memory
shell = record {
  logged_user = codes "stella";
  logged_home = 47 ∷ [];
  cwd_node = 0;
  cwd_path = 47 ∷ [];
  hist = replicate 20 (replicate 512 0);
  hist_n = 0;
  hist_p = 0;
  input = replicate 512 0;
  ilen = 0;
  nodes = init (replicate 128 no_node);
  disk = record {
    behind_super = [];
    super = fresh_super;
    inodes = [];
    fs_ready = false;
    disk = λ a. 0;
  };
  sched = sched_init (record {
    procs = [];
    current_idx = 0;
    next_pid = 0;
    initialized = false;
    cpu = record { regs = regs; stack = no_stack };
  });
  screen = record { cells = []; col = 0; row = 0; attr = 7 };
  seconds = 3;
  unset = λ k. [];
}

abbrev session : Session memory
session = record {
  shell = shell;
  editor = record {
    lines = [];
    nlines = 0;
    cx = 0;
    cy = 0;
    scroll_y = 0;
    dirty = false;
    filename = [];
  };
  memory = λ a. 0;
  pending = record { entry = 0; stack_ptr = 0 };
}

abbrev outside : Outside
outside = record {
  frames = record { bits = []; total = 0; used = 0 };
  heap_used = 0;
  model = [];
  sectors = 0;
  date = [];
  stack = [];
  typed = [];
  layout = record { proc_exit_addr = 0; stack_addr = λ i. i };
  places = record { elf_buf = 0; stack_top = 0; trampoline = 0; free_from = 0; free_to = 0 };
  edited = λ s. s;
  played = λ s. s;
}

abbrev made : Session memory
made = record session {
  shell = cmd_mkdir (codes "mkdir" ∷ codes "a" ∷ []) (hist_push (codes "mkdir  a") shell);
}

abbrev entered : Session memory
entered = record session { shell = cmd_cd (codes "cd" ∷ []) (hist_push (codes "cd") made.shell) }
