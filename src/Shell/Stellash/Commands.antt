-- ===== src/Shell/Stellash/Commands.antt =====
-- The commands of shell/stellash.c that change a file system or a process. `args` are `argv`, and the bytes
-- that the stack holds where a local buffer is read before it was written are the argument `old`.
pub mod Keep
pub mod Copies
use stellares_os.Common.{
  ℕ, zero, suc, ◌+◌, ◌-◌, ◌%◌, ◌^◌, Bool, true, false, ◌&&◌, ◌||◌, not, Option, none, some, List,
  [], ◌∷◌, ◌++◌, ltb, ◌==◌, if◌then◌else◌, get_or, take, drop, set, replicate, codes, str_eq,
  length,
}
use stellares_os.Libc.Str.{strlen}
use stellares_os.Libc.Number.{atoi}
use stellares_os.Fs.Device.{BlockDevice}
use stellares_os.Fs.Disk.{State, write_file, read_file, delete_file, exists}
use stellares_os.Fs.Ram.{
  Node, Nodes, node_at, is_file, is_dir, mkdir, create, write, read, delete, Deleted, done, missing,
  not_empty, abs_path,
}
use stellares_os.Kernel.Sched.{proc_kill}
use stellares_os.Drivers.Vga.{puts, putchar, set_attr}
use stellares_os.Drivers.Vga.Printf.{str, num}
use stellares_os.Shell.Stellash.{
  Shell, a_text, a_err, a_ok, a_dim, on_screen, tell, say, resolve_arg,
}

-- `argv[i]`, for `i < argc`
abbrev pub arg : List (List ℕ) → ℕ → List ℕ
arg args i = get_or args i []

-- `ramfs_read` of a file leaves its count in `n` and its bytes in front of `old`.
pub copy_to : ℕ → Option ℕ → List ℕ → Nodes → Nodes
copy_to src none old ns = ns
copy_to src (some dst) old ns =
    let (n, buf) = read ns src old 4096 in elim n [ none ↦ ns | some k ↦ (write ns dst buf k).1 ]

-- The words from the third on, with blanks between them, and a line break.
pub content : List (List ℕ) → List ℕ
content [] = []
content (w ∷ []) = w
content (w ∷ v ∷ ws) = w ++ (32 ∷ content (v ∷ ws))

module _ {b : BlockDevice} where
  -- The directory that is found becomes the current one.
  pub enter_dir : Option ℕ → List (List ℕ) → Shell b → Shell b
  enter_dir none args s =
      say a_err (codes "  cd: '%s': nao encontrado\n") (str (some (arg args 1)) ∷ []) s
  enter_dir (some t) args s =
      if is_dir (node_at s.nodes t).type
      then record s { cwd_node = t; cwd_path = abs_path s.unset s.nodes (some t) }
      else tell a_err (codes "  cd: nao e diretorio\n") s

  unfoldable pub cmd_cd : List (List ℕ) → Shell b → Shell b
  cmd_cd args s =
      if ltb (length args) 2
      then record s { cwd_node = 0; cwd_path = 47 ∷ [] }
      else (let target : Option ℕ =
            if str_eq (arg args 1) (46 ∷ 46 ∷ [])
            then elim (node_at s.nodes s.cwd_node).parent [
              | none ↦ some 0
              | some p ↦ if p == s.cwd_node then some 0 else some p
            ]
            else resolve_arg (arg args 1) s in
          enter_dir target args s)

  -- What `cmd_cat` prints: the count, none for -1, and the buffer.
  pub show : Option ℕ × List ℕ → Shell b → Shell b
  show (n, buf) s = elim n [
    | none ↦ tell a_dim (codes "  (arquivo vazio)\n") s
    | some zero ↦ tell a_dim (codes "  (arquivo vazio)\n") s
    | some (suc k) ↦
        on_screen
          (λ scr.
            let scr1 = puts (take (suc k) buf) (set_attr a_text scr) in
            set_attr a_text (if get_or buf k 0 == 10 then scr1 else putchar 10 scr1))
          s
  ]

  -- A file that is not in memory is looked up on the disk, by its argument.
  pub cat_disk : List ℕ → List ℕ → Shell b → Shell b
  unfolding show
  cat_disk old name s =
      if s.disk.fs_ready && exists b name s.disk
      then show (read_file b name old 4096 s.disk) s
      else say a_err (codes "  cat: '%s': nao encontrado\n") (str (some name) ∷ []) s

  pub cmd_cat : List ℕ → List (List ℕ) → Shell b → Shell b
  unfolding show
  cmd_cat old args s =
      if ltb (length args) 2
      then tell a_err (codes "  cat: nome necessario\n") s
      else (let name = arg args 1 in
          elim (resolve_arg name s) [
            | none ↦ cat_disk old name s
            | some f ↦
                if is_file (node_at s.nodes f).type
                then show (read s.nodes f old 4096) s
                else cat_disk old name s
          ])

  pub cmd_touch : List (List ℕ) → Shell b → Shell b
  cmd_touch args s =
      if ltb (length args) 2
      then tell a_err (codes "  touch: nome necessario\n") s
      else (let (f, ns) = create s.nodes s.cwd_node (arg args 1) in
          let s1 : Shell b = record s { nodes = ns } in
          elim f [
            | none ↦ tell a_err (codes "  touch: erro\n") s1
            | some i ↦
                if s1.disk.fs_ready
                then record s1 { disk = (write_file b (arg args 1) [] 0 s1.disk).1 }
                else s1
          ])

  pub cmd_mkdir : List (List ℕ) → Shell b → Shell b
  cmd_mkdir args s =
      if ltb (length args) 2
      then tell a_err (codes "  mkdir: nome necessario\n") s
      else (let (d, ns) = mkdir s.nodes s.cwd_node (arg args 1) in
          let s1 : Shell b = record s { nodes = ns } in
          elim d [ none ↦ tell a_err (codes "  mkdir: erro (ja existe?)\n") s1 | some i ↦ s1 ])

  -- The disk is asked again behind the removal.
  pub cmd_rm : List (List ℕ) → Shell b → Shell b
  cmd_rm args s =
      if ltb (length args) 2
      then tell a_err (codes "  rm: nome necessario\n") s
      else (let name = arg args 1 in
          let (r, ns) = delete s.nodes s.cwd_node name in
          let d = if s.disk.fs_ready then (delete_file b name s.disk).1 else s.disk in
          let s1 : Shell b = record s { nodes = ns; disk = d } in
          elim r [
            | done ↦ s1
            | missing ↦
                if exists b name d
                then s1
                else say a_err (codes "  rm: '%s': nao encontrado\n") (str (some name) ∷ []) s1
            | not_empty ↦ tell a_err (codes "  rm: dir nao esta vazio\n") s1
          ])

  pub cmd_cp : List ℕ → List (List ℕ) → Shell b → Shell b
  unfolding copy_to
  cmd_cp old args s =
      let not_found =
        say a_err (codes "  cp: '%s': nao encontrado\n") (str (some (arg args 1)) ∷ []) s in
      if ltb (length args) 3
      then tell a_err (codes "  cp: uso: cp <src> <dst>\n") s
      else elim (resolve_arg (arg args 1) s) [
        | none ↦ not_found
        | some src ↦
            if is_file (node_at s.nodes src).type
            then (let (dst, ns) = create s.nodes s.cwd_node (arg args 2) in
                elim dst [
                  | none ↦
                      tell a_err (codes "  cp: erro ao criar destino\n") (record s { nodes = ns })
                  | some i ↦
                      say a_ok (codes "  '%s' copiado para '%s'\n")
                        (str (some (arg args 1)) ∷ str (some (arg args 2)) ∷ [])
                        (record s { nodes = copy_to src (some i) old ns })
                ])
            else not_found
      ]

  -- The name field holds 63 bytes.
  pub cmd_mv : List (List ℕ) → Shell b → Shell b
  cmd_mv args s =
      if ltb (length args) 3
      then tell a_err (codes "  mv: uso: mv <src> <dst>\n") s
      else elim (resolve_arg (arg args 1) s) [
        | none ↦ say a_err (codes "  mv: '%s': nao encontrado\n") (str (some (arg args 1)) ∷ []) s
        | some src ↦
            say a_ok (codes "  '%s' renomeado para '%s'\n")
              (str (some (arg args 1)) ∷ str (some (arg args 2)) ∷ [])
              (record s {
                nodes =
                    set s.nodes src (record (node_at s.nodes src) { name = take 63 (arg args 2) });
              })
      ]

  -- The file is found, or else made in the current directory.
  pub write_target : List ℕ → Shell b → Option ℕ × Nodes
  write_target name s = elim (resolve_arg name s) [
    | some i ↦ (some i, s.nodes)
    | none ↦ create s.nodes s.cwd_node name
  ]

  pub write_into : Option ℕ × Nodes → List ℕ → List ℕ → Shell b → Shell b
  write_into (none, ns) name text s = tell a_err (codes "  write: erro\n") (record s { nodes = ns })
  write_into (some i, ns) name text s =
      let s1 : Shell b = record s { nodes = (write ns i text (strlen text)).1 } in
      if s1.disk.fs_ready
      then say a_ok (codes "  '%s' salvo no disco.\n") (str (some name) ∷ [])
          (record s1 { disk = (write_file b name text (strlen text) s1.disk).1 })
      else say a_ok (codes "  '%s' salvo na RAM.\n") (str (some name) ∷ []) s1

  pub cmd_write : List (List ℕ) → Shell b → Shell b
  unfolding content
  cmd_write args s =
      if ltb (length args) 3
      then tell a_err (codes "  write: uso: write <f> <texto>\n") s
      else write_into (write_target (arg args 1) s) (arg args 1)
          (content (drop 2 args) ++ (10 ∷ [])) s

  pub cmd_kill : List (List ℕ) → Shell b → Shell b
  cmd_kill args s =
      if ltb (length args) 2
      then tell a_err (codes "  kill: pid necessario\n") s
      else (let pid = atoi (arg args 1) in
          say a_ok (codes "  Processo %u terminado.\n") (num pid ∷ [])
            (record s { sched = proc_kill pid s.sched }))
