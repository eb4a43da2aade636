-- ===== src/Shell/Stellash/Show.antt =====
-- The commands of shell/stellash.c that only print.
use stellares_os.Common.{
  ℕ, ◌+◌, ◌-◌, ◌/◌, ◌%◌, ◌||◌, none, some, List, [], ◌∷◌, ltb, leb, if◌then◌else◌, length, codes,
  str_eq,
}
use stellares_os.Libc.Str.{strlen}
use stellares_os.Libc.Number.{itoa}
use stellares_os.Fs.Device.{BlockDevice}
use stellares_os.Fs.Disk as Disk
use stellares_os.Fs.Ram.{Nodes, node_at, is_dir}
use stellares_os.Kernel.Frames.{Frames, total_kb, free_kb}
use stellares_os.Drivers.Vga.{
  Screen, color, puts, putchar, set_attr, set_cursor, clear, draw_hline, spaces,
}
use stellares_os.Drivers.Vga.Printf.{str, num, vga_printf}
use stellares_os.Shell.Stellash.{
  Shell, a_text, a_err, a_dim, on_screen, tell, say, resolve_arg, draw_titlebar,
}
use stellares_os.Shell.Stellash.Commands.{arg, content}

pub print_cmd : List ℕ → List ℕ → Screen → Screen
print_cmd name desc scr =
    let s1 = puts name (puts (codes "    ") (set_attr (color 14 0) scr)) in
    putchar 10 (puts desc (set_attr a_text (spaces (18 - strlen name) s1)))

-- A name and its size in a column of 18; `paren` is the text in front of the size.
pub show_file : List ℕ → List ℕ → ℕ → Screen → Screen
show_file paren name size scr =
    let sz = itoa size 10 in
    let s1 = puts name (puts (codes "  ") (set_attr (color 15 0) scr)) in
    let s2 = puts (codes "B)") (puts sz (puts paren (set_attr a_dim s1))) in
    spaces (18 - (strlen name + strlen sz + 3)) s2

pub show_node : List ℕ → Nodes → ℕ → Screen → Screen
unfolding show_file
show_node paren ns c scr =
    let n = node_at ns c in
    if is_dir n.type
    then spaces (18 - (strlen n.name + 1))
        (puts (codes "/") (puts n.name (puts (codes "  ") (set_attr (color 9 0) scr))))
    else show_file paren n.name n.size scr

-- `col++; if (col >= 3) { vga_putchar('\n'); col = 0; }`
pub next_col : ℕ × Screen → ℕ × Screen
next_col (col, scr) = if leb 3 (col + 1) then (0, putchar 10 scr) else (col + 1, scr)

pub show_nodes : List ℕ → Nodes → List ℕ → ℕ × Screen → ℕ × Screen
unfolding show_node next_col
show_nodes paren ns [] r = r
show_nodes paren ns (c ∷ cs) (col, scr) =
    show_nodes paren ns cs (next_col (col, show_node paren ns c scr))

pub show_files : List (List ℕ × ℕ) → ℕ × Screen → ℕ × Screen
show_files [] r = r
show_files ((name, size) ∷ files) (col, scr) =
    show_files files (next_col (col, show_file (codes "(") name size scr))

-- `if (col) vga_putchar('\n')`
pub end_row : ℕ × Screen → Screen
end_row (col, scr) = if ltb 0 col then putchar 10 scr else scr

-- The files of the disk, where `ls` shows them.
pub show_disk : List (List ℕ × ℕ) → Screen → Screen
unfolding show_files
show_disk files scr =
    let s1 = set_attr a_text (puts (codes "  [disco] ") (set_attr (color 8 0) scr)) in
    let s2 = end_row (show_files files (0, s1)) in
    if ltb 0 (length files) then puts (10 ∷ []) (draw_hline 0 0 0 45 a_dim s2) else s2

module _ {b : BlockDevice} where
  -- The entries of a directory, behind what stands on the screen already.
  unfoldable pub show_dir : List ℕ → ℕ → Shell b → Shell b
  unfolding end_row show_nodes
  show_dir paren d s =
      on_screen
        (λ scr.
          set_attr a_text
            (putchar 10 (end_row (show_nodes paren s.nodes (node_at s.nodes d).children (0, scr)))))
        s

  unfoldable pub cmd_ls : List (List ℕ) → Shell b → Shell b
  unfolding show_dir
  cmd_ls args s =
      if ltb 1 (length args)
      then elim (resolve_arg (arg args 1) s) [
        | none ↦ say a_err (codes "  ls: '%s': nao encontrado\n") (str (some (arg args 1)) ∷ []) s
        | some d ↦
            if is_dir (node_at s.nodes d).type
            then show_dir (codes " (") d (on_screen (putchar 10) s)
            else tell a_err (codes "  ls: nao e diretorio\n") s
      ]
      else show_dir (codes " (") s.cwd_node (on_screen (putchar 10) s)

  unfoldable pub cmd_ls_disk : Shell b → Shell b
  cmd_ls_disk s =
      let s1 = on_screen (putchar 10) s in
      let here = str_eq s.cwd_path (47 ∷ []) || str_eq s.cwd_path (codes "/disk") in
      show_dir (codes "(") s.cwd_node (elim (Disk.list b s.disk) [
        | none ↦ s1
        | some files ↦ if here then on_screen (show_disk files) s1 else s1
      ])

  unfoldable pub cmd_clear : Shell b → Shell b
  cmd_clear s =
      on_screen (λ scr. set_attr a_text (set_cursor 0 1 scr))
        (draw_titlebar (on_screen (clear a_text) s))

  unfoldable pub cmd_uptime : Shell b → Shell b
  cmd_uptime s =
      let t = s.seconds in
      on_screen
        (vga_printf (codes "  Uptime: %u:%u:%u\n")
          (num (t / 3600) ∷ num (t % 3600 / 60) ∷ num (t % 60) ∷ []))
        s

  -- The memory map and `heap_used()`.
  unfoldable pub cmd_mem : Frames → ℕ → Shell b → Shell b
  cmd_mem m heap_used s =
      on_screen
        (λ scr.
          let s1 = puts (codes "\n  Memoria:\n\n") (set_attr (color 14 0) scr) in
          let s2 =
            vga_printf (codes "    Total:    %u KB\n") (num (total_kb m) ∷ [])
              (set_attr a_text s1) in
          let s3 = vga_printf (codes "    Livre:    %u KB\n") (num (free_kb m) ∷ []) s2 in
          let s4 =
            vga_printf (codes "    Usada:    %u KB\n") (num (total_kb m - free_kb m) ∷ []) s3 in
          vga_printf (codes "    Heap:     %u bytes\n\n") (num heap_used ∷ []) s4)
        s

  -- `ata_model()` and `ata_sectors()`; a list that is none has the count 0.
  unfoldable pub cmd_disk : List ℕ → ℕ → Shell b → Shell b
  cmd_disk model sectors s =
      let s1 = tell (color 14 0) (codes "\n  Disco ATA:\n\n") s in
      if b.detect s.disk.disk
      then on_screen
          (λ scr.
            let t1 = vga_printf (codes "    Modelo:  %s\n") (str (some model) ∷ []) scr in
            let t2 = vga_printf (codes "    Setores: %u\n") (num sectors ∷ []) t1 in
            let t3 = vga_printf (codes "    Tamanho: %u MB\n") (num (sectors / 2048) ∷ []) t2 in
            elim (Disk.list b s.disk) [
              | none ↦ puts (codes "    DiskFS: nao montado\n\n") t3
              | some files ↦
                  vga_printf (codes "    Arquivos no disco: %d\n\n") (num (length files) ∷ []) t3
            ])
          s1
      else tell a_err (codes "    Sem disco. Use: make run-disk\n\n") s1

  -- `pwd` and `echo`, in `execute`.
  unfoldable pub cmd_pwd : Shell b → Shell b
  cmd_pwd s = on_screen (λ scr. putchar 10 (puts s.cwd_path scr)) s

  unfoldable pub cmd_echo : List (List ℕ) → Shell b → Shell b
  cmd_echo words s = on_screen (λ scr. putchar 10 (puts (content words) scr)) s
