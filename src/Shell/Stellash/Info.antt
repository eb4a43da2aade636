-- ===== src/Shell/Stellash/Info.antt =====
-- The texts of shell/stellash.c about the system, and the table of processes of kernel/scheduler.c.
use stellares_os.Common.{
  ℕ, zero, suc, ◌+◌, ◌-◌, ◌/◌, ◌%◌, some, List, [], ◌∷◌, ◌++◌, if◌then◌else◌, ltb, codes,
}
use stellares_os.Libc.Str.{strlen}
use stellares_os.Libc.Number.{itoa}
use stellares_os.Fs.Device.{BlockDevice}
use stellares_os.Kernel.Frames.{Frames, total_kb, free_kb}
use stellares_os.Kernel.Sched.{ProcState, Process, Sched, is_dead, is_running, proc_count}
use stellares_os.Drivers.Vga.{
  Screen, color, puts, puts_at, putchar, putchar_at, set_attr, clear, spaces,
}
use stellares_os.Drivers.Vga.Printf.{str, num, vga_printf}
use stellares_os.Shell.Stellash.{Shell, a_text, a_dim, on_screen}
use stellares_os.Shell.Stellash.Show.{print_cmd}

-- The names and the texts of `cmd_help`.
abbrev pub help_lines : List (List ℕ × List ℕ)
help_lines =
    (codes "help", codes "exibe esta ajuda")
    ∷ (codes "clear", codes "limpa a tela")
    ∷ (codes "ls [dir]", codes "lista arquivos e dirs")
    ∷ (codes "cd <dir>", codes "muda diretorio")
    ∷ (codes "pwd", codes "diretorio atual")
    ∷ (codes "cat <f>", codes "exibe conteudo de arquivo")
    ∷ (codes "touch <f>", codes "cria arquivo vazio")
    ∷ (codes "mkdir <d>", codes "cria diretorio")
    ∷ (codes "rm <f>", codes "remove arquivo/dir vazio")
    ∷ (codes "write <f> <t>", codes "escreve texto em arquivo")
    ∷ (codes "cp <src> <dst>", codes "copia arquivo")
    ∷ (codes "mv <src> <dst>", codes "move/renomeia arquivo")
    ∷ (codes "edit <f>", codes "editor de texto (nano-style)")
    ∷ (codes "echo", codes "imprime texto")
    ∷ (codes "mem", codes "uso de memoria")
    ∷ (codes "uptime", codes "tempo ligado")
    ∷ (codes "uname", codes "info do sistema")
    ∷ (codes "neofetch", codes "info estilo Linux")
    ∷ (codes "ps", codes "lista processos")
    ∷ (codes "kill <pid>", codes "termina processo")
    ∷ (codes "disk", codes "info do disco ATA")
    ∷ (codes "snake", codes "jogo Snake!")
    ∷ (codes "reboot", codes "reinicia")
    ∷ (codes "halt", codes "desliga")
    ∷ []

pub print_cmds : List (List ℕ × List ℕ) → Screen → Screen
print_cmds [] scr = scr
print_cmds ((name, desc) ∷ cs) scr = print_cmds cs (print_cmd name desc scr)

-- A process in the table of `sched_dump`.
pub state_name : ProcState → List ℕ
state_name ProcState.dead = codes "DEAD"
state_name ProcState.ready = codes "READY"
state_name ProcState.running = codes "RUNNING"
state_name ProcState.sleeping = codes "SLEEPING"
state_name ProcState.blocked = codes "BLOCKED"

pub dump_procs : List Process → Screen → Screen
unfolding state_name
dump_procs [] scr = scr
dump_procs (p ∷ ps) scr = dump_procs ps (
    if is_dead p.state
    then scr
    else vga_printf (codes "  %-4u  %-9s  %-6u   %s\n")
        (num p.pid ∷ str (some (state_name p.state)) ∷ num p.ticks ∷ str (some p.name) ∷ [])
        (set_attr (if is_running p.state then 0x0A else 0x07) scr))

pub sched_dump : Sched → Screen → Screen
unfolding dump_procs
sched_dump sched scr =
    let s1 = puts (codes "\n  PID   ESTADO     TICKS    NOME\n") (set_attr 0x0E scr) in
    let s2 = puts (codes "  ---   --------   ------   ----------\n") s1 in
    puts (codes "\n") (dump_procs sched.procs s2)

-- `nf_line`; the null pointer is `none`, and is never given.
pub nf_line : List ℕ → ℕ → List ℕ → List ℕ → ℕ → ℕ → ℕ → Screen → Screen
nf_line logo la key val ka va sa scr =
    let s1 = spaces (28 - (strlen logo + 2)) (puts logo (set_attr la scr)) in
    let s2 = puts (codes ": ") (set_attr sa (puts key (set_attr ka s1))) in
    putchar 10 (puts val (set_attr va s2))

-- A row of colours, three blanks of each.
pub color_row : List ℕ → Screen → Screen
color_row [] scr = scr
color_row (c ∷ cs) scr = color_row cs (puts (codes "   ") (set_attr (color c c) scr))

abbrev pub a_hdr : ℕ
a_hdr = color 14 0

abbrev pub a_info : ℕ
a_info = color 11 0

module _ {b : BlockDevice} where
  unfoldable pub cmd_help : Shell b → Shell b
  unfolding print_cmds
  cmd_help s =
      on_screen
        (λ scr. putchar 10 (
          print_cmds help_lines
            (puts (codes "\n  Comandos do StellaresOS:\n\n") (set_attr a_hdr scr))))
        s

  -- `__DATE__` is the argument.
  unfoldable pub cmd_uname : List ℕ → Shell b → Shell b
  cmd_uname date s =
      on_screen
        (λ scr.
          let s1 = puts (codes "StellaresOS") (set_attr a_info scr) in
          let s2 = puts (codes " v0.1  i386  Microkernel  Stellash+RamFS  ") (set_attr a_text s1) in
          putchar 10 (puts date (set_attr a_dim s2)))
        s

  unfoldable pub cmd_ps : Shell b → Shell b
  unfolding sched_dump
  cmd_ps s = on_screen (sched_dump s.sched) s

  -- The memory map, `__DATE__`, and `ata_sectors()`.
  unfoldable pub cmd_neofetch : Frames → List ℕ → ℕ → Shell b → Shell b
  unfolding nf_line color_row
  cmd_neofetch m date sectors s =
      let t = s.seconds in
      let ka = color 11 0 in
      let va = color 7 0 in
      let sa = color 8 0 in
      let lo = color 11 0 in
      let hi = color 15 0 in
      let bl = a_text in
      let mem = itoa (free_kb m) 10 ++ (codes " KB / " ++ (itoa (total_kb m) 10 ++ codes " KB")) in
      let up =
        itoa (t / 3600) 10
        ++ (codes "h "
            ++ (itoa (t % 3600 / 60) 10 ++ (codes "m " ++ (itoa (t % 60) 10 ++ codes "s")))) in
      let empty = codes "                      " in
      let n1 =
        nf_line (codes "  .oPYo.  ooo         ") lo (codes "stella@stellaresos") [] ka hi sa
          (putchar 10 s.screen) in
      let n2 =
        nf_line (codes "  8    8  8           ") lo (codes "----------------------") [] sa sa sa
          n1 in
      let n3 =
        nf_line (codes "  8       8 .oPYo.    ") lo (codes "OS") (codes "StellaresOS v0.1") ka va sa
          n2 in
      let n4 =
        nf_line (codes "  8       8 8.   8    ") hi (codes "Kernel") (codes "Microkernel x86 i486")
          ka va sa n3 in
      let n5 =
        nf_line (codes "  8    8  8 8.   8    ") hi (codes "Shell") (codes "Stellash v0.1") ka va sa
          n4 in
      let n6 =
        nf_line (codes "  `YooP8  8 `YooP'    ") lo (codes "Arch") (codes "i386 32-bit prot.") ka va
          sa n5 in
      let n7 =
        nf_line (codes "  :....8  . :....     ") lo (codes "CPU") (codes "i486 (QEMU)") ka va sa
          n6 in
      let n8 = nf_line (codes "  ::::..  :  ::::     ") lo (codes "Memory") mem ka va sa n7 in
      let n9 = nf_line empty bl (codes "Uptime") up ka va sa n8 in
      let n10 = nf_line empty bl (codes "Procs") (itoa (proc_count s.sched) 10) ka va sa n9 in
      let n11 = nf_line empty bl (codes "FS") (codes "RamFS (RAM)") ka va sa n10 in
      let n12 =
        nf_line empty bl (codes "Disk")
          (if b.detect s.disk.disk
            then itoa (sectors / 2048) 10 ++ codes " MB (ATA)"
            else codes "sem disco")
          ka va sa n11 in
      let n13 = nf_line empty bl (codes "Display") (codes "VGA 80x25 16 cores") ka va sa n12 in
      let n14 = nf_line empty bl (codes "Built") date ka va sa n13 in
      let row1 = color_row (0 ∷ 4 ∷ 2 ∷ 14 ∷ 1 ∷ 5 ∷ 3 ∷ 15 ∷ []) (puts (codes "  ") n14) in
      let row2 =
        color_row (8 ∷ 12 ∷ 10 ∷ 14 ∷ 9 ∷ 13 ∷ 11 ∷ 15 ∷ [])
          (puts (codes "  ") (putchar 10 row1)) in
      record s { screen = set_attr a_text (putchar 10 row2) }

-- `draw_splash`, the pauses left out: the stars, the logo letter by letter, the bar and the messages.
abbrev splash_stars : List (ℕ × ℕ × List ℕ)
splash_stars =
    (5, 3, codes ".")
    ∷ (15, 6, codes "*")
    ∷ (70, 2, codes ".")
    ∷ (72, 8, codes "+")
    ∷ (60, 5, codes "*")
    ∷ (45, 3, codes ".")
    ∷ (55, 10, codes "+")
    ∷ []

abbrev splash_logo : List (List ℕ × ℕ)
splash_logo =
    (codes "   _____ _       _ _                     ___  _____", 11)
    ∷ (codes "  / ____| |     | | |                   / _ \\/  ___|", 11)
    ∷ (codes " | (___ | |_ ___| | | __ _ _ __ ___  __| | | \\__ \\", 15)
    ∷ (codes "  \\___ \\| __/ _ \\ | |/ _` | '__/ _ \\/ __| | | |__) |", 15)
    ∷ (codes "  ____) | ||  __/ | | (_| | | |  __/\\__ \\ |_| / __/", 11)
    ∷ (codes " |_____/ \\__\\___|_|_|\\__,_|_|  \\___||___/\\___/_____|}", 11)
    ∷ []

abbrev splash_messages : List (List ℕ × ℕ)
splash_messages =
    (codes "Inicializando GDT, IDT, PIC...", 10)
    ∷ (codes "Configurando memoria + heap...", 10)
    ∷ (codes "Iniciando scheduler preemptivo...", 14)
    ∷ (codes "Montando RamFS...", 10)
    ∷ (codes "Iniciando Stellash...", 14)
    ∷ []

pub put_stars : List (ℕ × ℕ × List ℕ) → Screen → Screen
put_stars [] scr = scr
put_stars ((x, y, star) ∷ stars) scr = put_stars stars (puts_at x y star (color 8 0) scr)

pub put_row : ℕ → ℕ → List ℕ → ℕ → Screen → Screen
put_row x y [] a scr = scr
put_row x y (c ∷ text) a scr = put_row (x + 1) y text a (putchar_at x y c a scr)

pub put_logo : ℕ → List (List ℕ × ℕ) → Screen → Screen
unfolding put_row
put_logo y [] scr = scr
put_logo y ((text, c) ∷ rows) scr = put_logo (y + 1) rows (put_row 12 y text (color c 0) scr)

-- The forty fields of the bar, from field `i` on.
pub put_bar : ℕ → ℕ → Screen → Screen
put_bar zero i scr = scr
put_bar (suc n) i scr =
    let a = if ltb i 13 then color 12 0 else if ltb i 26 then color 14 0 else color 10 0 in
    put_bar n (i + 1) (putchar_at (21 + i) 14 0xDB a scr)

pub put_messages : ℕ → List (List ℕ × ℕ) → Screen → Screen
put_messages y [] scr = scr
put_messages y ((text, c) ∷ ms) scr = put_messages (y + 1) ms (puts_at 22 y text (color c 0) scr)

pub draw_splash : Screen → Screen
unfolding put_stars put_logo put_bar put_messages
draw_splash scr =
    let s1 = put_logo 5 splash_logo (put_stars splash_stars (clear 0 scr)) in
    let s2 =
      puts_at 15 12 (codes "Microkernel x86  |  RamFS  |  Scheduler  |  v0.1") (color 8 0) s1 in
    let s3 = puts_at 61 14 (codes "]") (color 8 0) (puts_at 20 14 (codes "[") (color 8 0) s2) in
    put_messages 16 splash_messages (put_bar 40 0 s3)
