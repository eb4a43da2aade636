-- ===== src/Shell/Stellash/Commands/Keep.antt =====
-- What every command of shell/stellash.c keeps.
use stellares_os.Common.{
  ℕ, ◌≡◌, refl, inl, inr, Bool, true, false, ◌&&◌, Option, none, some, List, [], ◌∷◌, length, ltb,
  if◌then◌else◌, Bool-cases, Option-cases, drop, ◌++◌, codes, zero, suc,
}
use stellares_os.Fs.Device.{BlockDevice}
use stellares_os.Fs.Disk.{exists, write_file, read_file, delete_file}
use stellares_os.Libc.Str.{strlen}
use stellares_os.Fs.Ram.{
  dir, NodeType, Nodes, node_at, is_dir, is_file, mkdir, create, write, read, delete, Deleted, done,
  missing, not_empty,
}
use stellares_os.Fs.Ram.Dirs.{
  IsTree, mkdir-IsTree, create-IsTree, delete-IsTree, write-IsTree, renamed-IsTree,
}
use stellares_os.Drivers.Vga.Printf.{str}
use stellares_os.Shell.Stellash.{Shell, a_ok, a_err, on_screen, tell, say, resolve_arg}
use stellares_os.Shell.Stellash.Commands.{
  enter_dir, cat_disk, write_target, write_into, arg, cmd_cd, show, cmd_cat, cmd_touch, cmd_mkdir,
  cmd_rm, copy_to, cmd_cp, cmd_mv, content, cmd_write, cmd_kill,
}

is_dir_lem : (t : NodeType) → is_dir t ≡ true → t ≡ dir
is_dir_lem dir h = refl
is_dir_lem _ h = cc

copy_to-IsTree :
    (ns : Nodes) (p src : ℕ) (dst : Option ℕ) (old : List ℕ)
    → IsTree ns p
    → IsTree (copy_to src dst old ns) p
unfolding copy_to
copy_to-IsTree ns p src none old h = h
copy_to-IsTree ns p src (some i) old h = elim (Option-cases (read ns src old 4096).0) [
  | inl e ↦ rw (e, copy_to) h
  | inr (k, e) ↦ rw (e, copy_to) (write-IsTree ns p i (read ns src old 4096).1 k h)
]

module _ {b : BlockDevice} where
  -- The tree in memory is well formed, and the current directory is a directory of it.
  abbrev pub IsValid : Shell b → Type 0
  IsValid s = IsTree s.nodes s.cwd_node

  either : (x : Bool) (s t : Shell b) → IsValid s → IsValid t → IsValid (if x then s else t)
  either true s t h k = h
  either false s t h k = k

  pub cmd_touch-IsValid :
      (args : List (List ℕ)) (s : Shell b) → IsValid s → IsValid (cmd_touch args s)
  unfolding cmd_touch tell on_screen
  cmd_touch-IsValid args s h = elim (Bool-cases (ltb (length args) 2)) [
    | inl e ↦ rw (e, cmd_touch) h
    | inr e ↦
        let made = create-IsTree s.nodes s.cwd_node h (arg args 1) in
        let s1 : Shell b = record s { nodes = (create s.nodes s.cwd_node (arg args 1)).1 } in
        elim (Option-cases (create s.nodes s.cwd_node (arg args 1)).0) [
          | inl f ↦ rw (e, f, cmd_touch) made
          | inr (i, f) ↦
              rw (e, f, cmd_touch)
                (either s1.disk.fs_ready
                  (record s1 { disk = (write_file b (arg args 1) [] 0 s1.disk).1 }) s1 made made)
        ]
  ]

  pub cmd_mkdir-IsValid :
      (args : List (List ℕ)) (s : Shell b) → IsValid s → IsValid (cmd_mkdir args s)
  unfolding cmd_mkdir tell on_screen
  cmd_mkdir-IsValid args s h = elim (Bool-cases (ltb (length args) 2)) [
    | inl e ↦ rw (e, cmd_mkdir) h
    | inr e ↦
        let made = mkdir-IsTree s.nodes s.cwd_node h (arg args 1) in
        elim (Option-cases (mkdir s.nodes s.cwd_node (arg args 1)).0) [
          | inl f ↦ rw (e, f, cmd_mkdir) made
          | inr (i, f) ↦ rw (e, f, cmd_mkdir) made
        ]
  ]

  pub cmd_mkdir-cwd_path :
      (args : List (List ℕ)) (s : Shell b) → (cmd_mkdir args s).cwd_path ≡ s.cwd_path
  unfolding cmd_mkdir tell on_screen
  cmd_mkdir-cwd_path args s = elim (Bool-cases (ltb (length args) 2)) [
    | inl e ↦ rw (e, cmd_mkdir) refl
    | inr e ↦ elim (Option-cases (mkdir s.nodes s.cwd_node (arg args 1)).0) [
      | inl f ↦ rw (e, f, cmd_mkdir) refl
      | inr (i, f) ↦ rw (e, f, cmd_mkdir) refl
    ]
  ]

  pub cmd_mv-IsValid : (args : List (List ℕ)) (s : Shell b) → IsValid s → IsValid (cmd_mv args s)
  unfolding cmd_mv tell say on_screen
  cmd_mv-IsValid args s h = elim (Bool-cases (ltb (length args) 3)) [
    | inl e ↦ rw (e, cmd_mv) h
    | inr e ↦ elim (Option-cases (resolve_arg (arg args 1) s)) [
      | inl f ↦ rw (e, f, cmd_mv) h
      | inr (i, f) ↦ rw (e, f, cmd_mv) (renamed-IsTree s.nodes s.cwd_node i _ h)
    ]
  ]

  pub cmd_kill-IsValid :
      (args : List (List ℕ)) (s : Shell b) → IsValid s → IsValid (cmd_kill args s)
  unfolding cmd_kill tell say on_screen
  cmd_kill-IsValid args s h = elim (Bool-cases (ltb (length args) 2)) [
    | inl e ↦ rw (e, cmd_kill) h
    | inr e ↦ rw (e, cmd_kill) h
  ]

  cd_to :
      (t : Option ℕ) (args : List (List ℕ)) (s : Shell b) → IsValid s → IsValid (enter_dir t args s)
  unfolding enter_dir tell say on_screen
  cd_to none args s h = h
  cd_to (some t) args s h = elim (Bool-cases (is_dir (node_at s.nodes t).type)) [
    | inl e ↦
        rw (e, enter_dir)
          (record { valid = h.valid; in_dir = is_dir_lem (node_at s.nodes t).type e })
    | inr e ↦ rw (e, enter_dir) h
  ]

  pub cmd_cd-IsValid : (args : List (List ℕ)) (s : Shell b) → IsValid s → IsValid (cmd_cd args s)
  unfolding cmd_cd
  cmd_cd-IsValid args s h = elim (Bool-cases (ltb (length args) 2)) [
    | inl e ↦ rw (e, cmd_cd) (record { valid = h.valid; in_dir = h.valid.root })
    | inr e ↦ rw (e, cmd_cd) (cd_to _ args s h)
  ]

  show-IsValid : (r : Option ℕ × List ℕ) (s : Shell b) → IsValid s → IsValid (show r s)
  unfolding show tell on_screen
  show-IsValid (none, buf) s h = h
  show-IsValid (some zero, buf) s h = h
  show-IsValid (some (suc k), buf) s h = h

  cat_disk-IsValid : (old name : List ℕ) (s : Shell b) → IsValid s → IsValid (cat_disk old name s)
  unfolding cat_disk say on_screen
  cat_disk-IsValid old name s h =
      either (s.disk.fs_ready && exists b name s.disk) (show (read_file b name old 4096 s.disk) s)
        (say a_err (codes "  cat: '%s': nao encontrado\n") (str (some name) ∷ []) s)
        (show-IsValid (read_file b name old 4096 s.disk) s h) h

  pub cmd_cat-IsValid :
      (old : List ℕ) (args : List (List ℕ)) (s : Shell b) → IsValid s → IsValid (cmd_cat old args s)
  unfolding cmd_cat tell on_screen
  cmd_cat-IsValid old args s h =
      let name = arg args 1 in
      elim (Bool-cases (ltb (length args) 2)) [
        | inl e ↦ rw (e, cmd_cat) h
        | inr e ↦ elim (Option-cases (resolve_arg name s)) [
          | inl f ↦ rw (e, f, cmd_cat) (cat_disk-IsValid old name s h)
          | inr (i, f) ↦
              rw (e, f, cmd_cat)
                (either (is_file (node_at s.nodes i).type) (show (read s.nodes i old 4096) s)
                  (cat_disk old name s) (show-IsValid (read s.nodes i old 4096) s h)
                  (cat_disk-IsValid old name s h))
        ]
      ]

  pub cmd_cp-IsValid :
      (old : List ℕ) (args : List (List ℕ)) (s : Shell b) → IsValid s → IsValid (cmd_cp old args s)
  unfolding cmd_cp tell say on_screen
  cmd_cp-IsValid old args s h =
      let made = create-IsTree s.nodes s.cwd_node h (arg args 2) in
      let r = create s.nodes s.cwd_node (arg args 2) in
      elim (Bool-cases (ltb (length args) 3)) [
        | inl e ↦ rw (e, cmd_cp) h
        | inr e ↦ elim (Option-cases (resolve_arg (arg args 1) s)) [
          | inl f ↦ rw (e, f, cmd_cp) h
          | inr (src, f) ↦ elim (Bool-cases (is_file (node_at s.nodes src).type)) [
            | inr g ↦ rw (e, f, g, cmd_cp) h
            | inl g ↦ elim (Option-cases r.0) [
              | inl k ↦ rw (e, f, g, k, cmd_cp) made
              | inr (i, k) ↦
                  rw (e, f, g, k, cmd_cp) (copy_to-IsTree r.1 s.cwd_node src (some i) old made)
            ]
          ]
        ]
      ]

  deleted_or :
      (r : Deleted) (s t u : Shell b)
      → IsValid s
      → IsValid t
      → IsValid u
      → IsValid (elim r [ done ↦ s | missing ↦ t | not_empty ↦ u ])
  deleted_or done s t u h k l = h
  deleted_or missing s t u h k l = k
  deleted_or not_empty s t u h k l = l

  pub cmd_rm-IsValid : (args : List (List ℕ)) (s : Shell b) → IsValid s → IsValid (cmd_rm args s)
  unfolding cmd_rm tell say on_screen
  cmd_rm-IsValid args s h =
      let name = arg args 1 in
      let gone = delete-IsTree s.nodes s.cwd_node h name in
      let d = if s.disk.fs_ready then (delete_file b name s.disk).1 else s.disk in
      let s1 : Shell b = record s { nodes = (delete s.nodes s.cwd_node name).1; disk = d } in
      let absent = say a_err (codes "  rm: '%s': nao encontrado\n") (str (some name) ∷ []) s1 in
      elim (Bool-cases (ltb (length args) 2)) [
        | inl e ↦ rw (e, cmd_rm) h
        | inr e ↦
            rw (e, cmd_rm)
              (deleted_or (delete s.nodes s.cwd_node name).0 s1
                (if exists b name d then s1 else absent)
                (tell a_err (codes "  rm: dir nao esta vazio\n") s1) gone
                (either (exists b name d) s1 absent gone gone) gone)
      ]

  write_target-IsTree :
      (name : List ℕ) (s : Shell b) → IsValid s → IsTree (write_target name s).1 s.cwd_node
  unfolding write_target
  write_target-IsTree name s h = elim (Option-cases (resolve_arg name s)) [
    | inl e ↦ rw (e, write_target) (create-IsTree s.nodes s.cwd_node h name)
    | inr (i, e) ↦ rw (e, write_target) h
  ]

  write_into-IsValid :
      (r : Option ℕ × Nodes) (name text : List ℕ) (s : Shell b)
      → IsTree r.1 s.cwd_node
      → IsValid (write_into r name text s)
  unfolding write_into tell say on_screen
  write_into-IsValid (none, ns) name text s h = h
  write_into-IsValid (some i, ns) name text s h =
      let after = write-IsTree ns s.cwd_node i text (strlen text) h in
      let s1 : Shell b = record s { nodes = (write ns i text (strlen text)).1 } in
      either s.disk.fs_ready
        (say a_ok (codes "  '%s' salvo no disco.\n") (str (some name) ∷ [])
          (record s1 { disk = (write_file b name text (strlen text) s.disk).1 }))
        (say a_ok (codes "  '%s' salvo na RAM.\n") (str (some name) ∷ []) s1) after after

  pub cmd_write-IsValid :
      (args : List (List ℕ)) (s : Shell b) → IsValid s → IsValid (cmd_write args s)
  unfolding cmd_write tell on_screen
  cmd_write-IsValid args s h = elim (Bool-cases (ltb (length args) 3)) [
    | inl e ↦ rw (e, cmd_write) h
    | inr e ↦
        let name = arg args 1 in
        rw (e, cmd_write)
          (write_into-IsValid (write_target name s) name (content (drop 2 args) ++ (10 ∷ [])) s
            (write_target-IsTree name s h))
  ]
