-- ===== src/Shell/Stellash/Execute.antt =====
-- `execute` of shell/stellash.c: from a line to its command. The array `input`, in which the line is cut, is
-- not looked at again before it is cleared. What a command asks of other parts is the record `Outside`: the
-- memory map, `heap_used()`, the drive, `__DATE__`, the bytes that the stack holds, the keys of the editor,
-- where the linker puts the loader's arrays, and what the editor and the game leave on the screen.
pub mod Keep
pub mod Reach
mod Tests
use stellares_os.Common.{
  ℕ, Bool, ◌&&◌, ◌||◌, Option, none, some, List, [], ◌∷◌, ◌==◌, if◌then◌else◌, ltb, length, take,
  drop, codes, str_eq,
}
use stellares_os.Fs.Device.{BlockDevice}
use stellares_os.Fs.Ram.{Nodes, Node, node_at, is_file, find, read}
use stellares_os.Kernel.Elf as Elf
use stellares_os.Kernel.Elf.{Places, Pending, spoils, elf_exec}
use stellares_os.Kernel.Elf.Bytes.{Memory}
use stellares_os.Kernel.Frames.{Frames}
use stellares_os.Kernel.Sched.{Layout}
use stellares_os.Drivers.Vga.{Screen, color, puts, puts_at, putchar, set_attr, clear}
use stellares_os.Drivers.Vga.Printf.{str}
use stellares_os.Pkg.Spk as Spk
use stellares_os.Pkg.Spk.{spk_install, spk_remove, spk_list}
use stellares_os.Shell.Editor.{Editor, ed_load, run_key, quits}
use stellares_os.Shell.Stellash.{
  Shell, a_text, a_err, a_dim, on_screen, tell, say, parse, resolve_arg,
}
use stellares_os.Shell.Stellash.Input.{hist_push}
use stellares_os.Shell.Stellash.Line.{
  trim, Command, command_of, help, clear_all, ls, cd, pwd, cat, touch, mkdir, rm, cp, mv, write,
  edit, echo, mem, disk, uname, uptime, ps, kill, neofetch, snake, exec, spkg, reboot, halt,
  unknown,
}
use stellares_os.Shell.Stellash.Commands.{
  arg, cmd_cd, cmd_cat, cmd_touch, cmd_mkdir, cmd_rm, cmd_cp, cmd_mv, cmd_write, cmd_kill,
}
use stellares_os.Shell.Stellash.Show.{
  cmd_ls, cmd_ls_disk, cmd_clear, cmd_uptime, cmd_mem, cmd_disk, cmd_pwd, cmd_echo,
}
use stellares_os.Shell.Stellash.Info.{a_hdr, cmd_help, cmd_uname, cmd_ps, cmd_neofetch}

pub record Outside : Type 0 where
  pub frames : Frames
  pub heap_used : ℕ
  pub model : List ℕ
  pub sectors : ℕ
  pub date : List ℕ
  pub stack : List ℕ
  pub typed : List (ℕ × ℕ)
  pub layout : Layout
  pub places : Places
  pub edited : Screen → Screen
  pub played : Screen → Screen

-- `ed_load`'s file: the bytes of a file of the root, if it has any.
pub file_text : Nodes → List ℕ → Option (List ℕ)
file_text ns name = elim (find ns 0 name) [
  | none ↦ none
  | some f ↦
      let n = node_at ns f in
      if is_file n.type && ltb 0 n.size then some (take n.size n.bytes) else none
]

-- The loop of `editor_run` over the keys, each with the one that answers its question, if it asks one.
pub edit_keys : List (ℕ × ℕ) → Editor × Nodes → Editor × Nodes
edit_keys [] (e, ns) = (e, ns)
edit_keys ((c, answer) ∷ keys) (e, ns) =
    let behind = run_key c answer e ns in
    let rest = edit_keys keys behind in if quits c answer e then behind else rest

pub editor_run : List ℕ → List (ℕ × ℕ) → Editor → Nodes → Editor × Nodes
unfolding file_text edit_keys
editor_run fname keys e ns =
    let name = take 63 fname in
    let e1 = ed_load (file_text ns name) (record e { filename = name }) in
    edit_keys keys (record e1 { dirty = Bool.false }, ns)

-- The messages of `exec`, by the result.
pub exec_message : Elf.Result → List ℕ
exec_message Elf.ok = codes "OK"
exec_message Elf.not_elf = codes "Nao e ELF"
exec_message Elf.not_32 = codes "Nao e 32-bit"
exec_message Elf.not_exec = codes "Nao e executavel"
exec_message Elf.no_mem = codes "Sem memoria"
exec_message Elf.no_file = codes "Arquivo nao encontrado"

module _ (b : BlockDevice) where
  -- The shell, with the state of the editor and of the loader.
  pub record Session : Type 0 where
    pub shell : Shell b
    pub editor : Editor
    pub memory : Memory
    pub pending : Pending

  -- What a line ends in: the shell goes on, the machine restarts, or it halts, with what the screen shows; or bytes of
  -- the kernel are overwritten.
  pub data Outcome : Type 0 where
    goes_on : Session → Outcome
    restarts : Screen → Outcome
    halts : Screen → Outcome
    spoilt : Outcome

module _ {b : BlockDevice} where
  -- `none` where the program is loaded, or its arguments are put, over bytes of the kernel: what the system does
  -- behind that is not known.
  pub cmd_exec : Outside → List (List ℕ) → Session b → Option (Session b)
  unfolding exec_message
  cmd_exec o args t =
      let s = t.shell in
      if ltb (length args) 2
      then some (record t { shell = tell a_err (codes "  exec: nome necessario\n") s })
      else (let machine : Elf.Machine b = record {
        nodes = s.nodes;
        disk = s.disk;
        sched = s.sched;
        memory = t.memory;
        pending = t.pending;
        unset = s.unset 0;
      } in
          if spoils b o.places (arg args 1) (drop 1 args) machine
          then none
          else (let (r, m) =
                elf_exec b o.layout o.places (some (arg args 1)) (drop 1 args) machine in
              let s1 : Shell b = record s { nodes = m.nodes; disk = m.disk; sched = m.sched } in
              some (record t {
                memory = m.memory;
                pending = m.pending;
                shell = elim r [
                  | Elf.ok ↦ s1
                  | r' ↦
                      say a_err (codes "  exec: erro: %s\n") (str (some (exec_message r')) ∷ []) s1
                ];
              })))

  -- The part of the shell that pkg/spk.c changes.
  pub with_system : Spk.System b → Shell b → Shell b
  with_system p s = record s { nodes = p.nodes; disk = p.disk; screen = p.screen }

  pub system_of : Shell b → Spk.System b
  system_of s = record { nodes = s.nodes; disk = s.disk; screen = s.screen }

  pub spkg_help : Shell b → Shell b
  spkg_help s =
      on_screen
        (λ scr.
          let s1 = set_attr a_text (
            puts (codes "\n  spkg - Gerenciador de pacotes StellaresOS\n\n")
              (set_attr a_hdr scr)) in
          let s2 = puts (codes "  spkg list              lista pacotes instalados\n") s1 in
          let s3 = puts (codes "  spkg install <arquivo>  instala pacote .spk\n") s2 in
          puts (codes "  spkg remove  <nome>     remove pacote\n\n") s3)
        s

  pub spkg_list : Shell b → Shell b
  unfolding with_system system_of
  spkg_list s =
      let s1 =
        on_screen (λ scr. puts (codes "\n  Pacotes instalados:\n\n") (set_attr a_hdr scr)) s in
      on_screen (putchar 10) (with_system (spk_list (system_of s1)) s1)

  -- The package is the array of the file's bytes. `none` where its strings run over the arrays of the installer.
  pub spkg_install : List ℕ → Shell b → Option (Shell b)
  spkg_install name s =
      let missing = say a_err (codes "  spkg: '%s' nao encontrado\n") (str (some name) ∷ []) s in
      elim (resolve_arg name s) [
        | none ↦ some missing
        | some f ↦
            let n = node_at s.nodes f in
            if is_file n.type
            then elim (spk_install (some n.bytes) n.size (system_of s)) [
              | none ↦ none
              | some (Spk.ok, p) ↦ some (with_system p s)
              | some (_, p) ↦
                  some (tell a_err (codes "  spkg: erro ao instalar\n") (with_system p s))
            ]
            else some missing
      ]

  pub cmd_spkg : List (List ℕ) → Shell b → Option (Shell b)
  unfolding spkg_help spkg_list
  cmd_spkg args s =
      let sub = arg args 1 in
      if ltb (length args) 2
      then some (spkg_help s)
      else if str_eq sub (codes "list")
      then some (spkg_list s)
      else if str_eq sub (codes "install") && ltb 2 (length args)
      then spkg_install (arg args 2) s
      else if str_eq sub (codes "remove") && ltb 2 (length args)
      then some (with_system (spk_remove (arg args 2) (system_of s)).1 s)
      else some (tell a_err (codes "  spkg: comando invalido\n") s)

  pub cmd_edit : Outside → List (List ℕ) → Session b → Session b
  cmd_edit o args t =
      if ltb (length args) 2
      then record t { shell = tell a_err (codes "  edit: nome necessario\n") t.shell }
      else (let (e, ns) = editor_run (arg args 1) o.typed t.editor t.shell.nodes in
          record t {
            editor = e;
            shell = record (t.shell) { nodes = ns; screen = o.edited t.shell.screen };
          })

  abbrev pub on_shell : (Shell b → Shell b) → Session b → Outcome b
  on_shell f t = goes_on (record t { shell = f t.shell })

  abbrev pub if_intact : Option (Session b) → Outcome b
  if_intact none = spoilt
  if_intact (some t) = goes_on t

  -- The branches of `execute`.
  pub run_command : Command → Outside → List (List ℕ) → Session b → Outcome b
  run_command help o args t = on_shell cmd_help t
  run_command clear_all o args t = on_shell cmd_clear t
  run_command ls o args t = on_shell (if ltb 1 (length args) then cmd_ls args else cmd_ls_disk) t
  run_command cd o args t = on_shell (cmd_cd args) t
  run_command pwd o args t = on_shell cmd_pwd t
  run_command cat o args t = on_shell (cmd_cat o.stack args) t
  run_command touch o args t = on_shell (cmd_touch args) t
  run_command mkdir o args t = on_shell (cmd_mkdir args) t
  run_command rm o args t = on_shell (cmd_rm args) t
  run_command cp o args t = on_shell (cmd_cp o.stack args) t
  run_command mv o args t = on_shell (cmd_mv args) t
  run_command write o args t = on_shell (cmd_write args) t
  run_command edit o args t = goes_on (cmd_edit o args t)
  run_command echo o args t = on_shell (cmd_echo (drop 1 args)) t
  run_command mem o args t = on_shell (cmd_mem o.frames o.heap_used) t
  run_command disk o args t = on_shell (cmd_disk o.model o.sectors) t
  run_command uname o args t = on_shell (cmd_uname o.date) t
  run_command uptime o args t = on_shell cmd_uptime t
  run_command ps o args t = on_shell cmd_ps t
  run_command kill o args t = on_shell (cmd_kill args) t
  run_command neofetch o args t = on_shell (cmd_neofetch o.frames o.date o.sectors) t
  run_command snake o args t = on_shell (on_screen o.played) t
  run_command exec o args t = if_intact (cmd_exec o args t)
  run_command spkg o args t = elim (cmd_spkg args t.shell) [
    | none ↦ spoilt
    | some s ↦ goes_on (record t { shell = s })
  ]
  run_command reboot o args t =
      restarts (puts (codes "\n  Reiniciando...\n") (set_attr a_err t.shell.screen))
  run_command halt o args t =
      halts (
        puts_at 22 12 (codes "Sistema encerrado. Pode desligar.") a_dim
          (clear a_dim t.shell.screen))
  run_command unknown o args t =
      on_shell
        (say a_err (codes "  %s: nao encontrado. Digite 'help'.\n") (str (some (arg args 0)) ∷ []))
        t

  -- The line without its blanks goes to the history; the first of its words names the command.
  pub run_words : List ℕ → Outside → List (List ℕ) → Session b → Outcome b
  run_words line o [] t = goes_on t
  run_words line o (w ∷ ws) t = run_command (command_of w) o (w ∷ ws) t

  pub execute : List ℕ → Outside → Session b → Outcome b
  execute input o t =
      let line = trim input in
      if length line == 0
      then goes_on t
      else run_words line o (parse line) (record t { shell = hist_push line t.shell })
