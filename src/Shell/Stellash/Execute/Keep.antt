-- ===== src/Shell/Stellash/Execute/Keep.antt =====
-- What every line that is entered into shell/stellash.c keeps.
use stellares_os.Common.{
  ℕ, ◌≡◌, ◌≢◌, refl, true, arith, inl, inr, Bool, false, Option, none, some, ◌&&◌, ◌||◌, List, [],
  ◌∷◌, ◌==◌, ltb, length, codes, str_eq, Bool-cases, Option-cases,
}
use stellares_os.Fs.Device.{BlockDevice}
use stellares_os.Fs.Disk as Disk
use stellares_os.Fs.Ram.{Nodes, node_at, is_dir}
use stellares_os.Fs.Ram.Dirs.{IsTree}
use stellares_os.Libc.Str.{first}
use stellares_os.Pkg.Spk.{spk_list, spk_remove}
use stellares_os.Shell.Editor.{Editor, run_key, quits}
use stellares_os.Shell.Editor.Keep.{run_key-IsTree}
use stellares_os.Shell.Stellash.{Shell, draw_titlebar, on_screen, tell, say, parse, resolve_arg}
use stellares_os.Shell.Stellash.Input.{hist_push}
use stellares_os.Shell.Stellash.Commands.{arg}
use stellares_os.Shell.Stellash.Commands.Keep.{
  IsValid, cmd_cd-IsValid, cmd_cat-IsValid, cmd_touch-IsValid, cmd_mkdir-IsValid, cmd_rm-IsValid,
  cmd_cp-IsValid, cmd_mv-IsValid, cmd_write-IsValid, cmd_kill-IsValid,
}
use stellares_os.Shell.Stellash.Show.{
  show_dir, cmd_ls, cmd_ls_disk, cmd_clear, cmd_uptime, cmd_mem, cmd_disk, cmd_pwd, cmd_echo,
}
use stellares_os.Shell.Stellash.Info.{cmd_help, cmd_uname, cmd_ps, cmd_neofetch}
use stellares_os.Shell.Stellash.Line.{
  Command, spkg, command_of, trim, help, clear_all, ls, cd, pwd, cat, touch, mkdir, rm, cp, mv,
  write, edit, echo, mem, disk, uname, uptime, ps, kill, neofetch, snake, exec, reboot, halt,
  unknown,
}
use stellares_os.Shell.Stellash.Execute.{
  Outside, Session, Outcome, goes_on, restarts, halts, spoilt, editor_run, edit_keys, spkg_help,
  spkg_list, with_system, system_of, cmd_edit, cmd_spkg, run_command, run_words, execute,
}

edit_keys-IsTree :
    (keys : List (ℕ × ℕ)) (e : Editor) (ns : Nodes) (p : ℕ)
    → IsTree ns p
    → IsTree (edit_keys keys (e, ns)).1 p
unfolding edit_keys
edit_keys-IsTree [] e ns p h = h
edit_keys-IsTree ((c, answer) ∷ keys) e ns p h =
    let r = run_key-IsTree c answer e ns p h in
    elim (Bool-cases (quits c answer e)) [
      | inl q ↦ rw (q, edit_keys) r
      | inr q ↦
          rw (q, edit_keys)
            (edit_keys-IsTree keys (run_key c answer e ns).0 (run_key c answer e ns).1 p r)
    ]

-- The lines that are left out: `exec`, whose program is loaded over any memory that its file names, `spkg install`,
-- and a name for `spkg` that does not fit an array of 48 bytes behind `installed_`.
abbrev pub bars : List (List ℕ) → Bool
bars [] = false
bars (w ∷ ws) = elim (command_of w) [
  | exec ↦ true
  | spkg ↦ str_eq (arg (w ∷ ws) 1) (codes "install") || ltb 37 (length (arg (w ∷ ws) 2))
  | _ ↦ false
]

neither : (x y : Bool) → (x || y) ≡ false → x ≡ false
neither x y e = ground arith

not_spkg :
    (w : List ℕ) (ws : List (List ℕ))
    → bars (w ∷ ws) ≡ false
    → command_of w ≡ spkg
    → str_eq (arg (w ∷ ws) 1) (codes "install") ≡ false
not_spkg w ws e c =
    let e' : (str_eq (arg (w ∷ ws) 1) (codes "install") || ltb 37 (length (arg (w ∷ ws) 2)))
        ≡ false =
      rw (c, bars) at e in
    neither _ _ e'

not_exec : (w : List ℕ) (ws : List (List ℕ)) → bars (w ∷ ws) ≡ false → command_of w ≢ exec
not_exec w ws e c = let f = rw (c, bars) at e in cc f

module _ {b : BlockDevice} where
  -- The tree in memory is well formed, and the current directory is a directory of it, if the shell goes on.
  abbrev pub EndsValid : Outcome b → Type 0
  EndsValid (goes_on t) = IsValid t.shell
  EndsValid (restarts scr) = Unit {0}
  EndsValid (halts scr) = Unit {0}
  EndsValid spoilt = Unit {0}

  -- The same behind a command of the package manager.
  abbrev AllValid : Option (Shell b) → Type 0
  AllValid none = Unit {0}
  AllValid (some s) = IsValid s

  hist_push-IsValid : (line : List ℕ) (s : Shell b) → IsValid s → IsValid (hist_push line s)
  unfolding hist_push
  hist_push-IsValid line s h = elim (Bool-cases (first line == 0)) [
    | inl e ↦ rw (e, hist_push) h
    | inr e ↦ rw (e, hist_push) h
  ]

  cmd_ls-IsValid : (args : List (List ℕ)) (s : Shell b) → IsValid s → IsValid (cmd_ls args s)
  unfolding cmd_ls show_dir on_screen tell say
  cmd_ls-IsValid args s h = elim (Bool-cases (ltb 1 (length args))) [
    | inr e ↦ rw (e, cmd_ls) h
    | inl e ↦ elim (Option-cases (resolve_arg (arg args 1) s)) [
      | inl f ↦ rw (e, f, cmd_ls) h
      | inr (d, f) ↦ elim (Bool-cases (is_dir (node_at s.nodes d).type)) [
        | inl g ↦ rw (e, f, g, cmd_ls) h
        | inr g ↦ rw (e, f, g, cmd_ls) h
      ]
    ]
  ]

  cmd_ls_disk-IsValid : (s : Shell b) → IsValid s → IsValid (cmd_ls_disk s)
  unfolding cmd_ls_disk show_dir on_screen
  cmd_ls_disk-IsValid s h = elim (Option-cases (Disk.list b s.disk)) [
    | inl e ↦ rw (e, cmd_ls_disk) h
    | inr (files, e) ↦
        elim (Bool-cases (str_eq s.cwd_path (47 ∷ []) || str_eq s.cwd_path (codes "/disk"))) [
          | inl g ↦ rw (e, g, cmd_ls_disk) h
          | inr g ↦ rw (e, g, cmd_ls_disk) h
        ]
  ]

  cmd_disk-IsValid :
      (model : List ℕ) (sectors : ℕ) (s : Shell b) → IsValid s → IsValid (cmd_disk model sectors s)
  unfolding cmd_disk tell on_screen
  cmd_disk-IsValid model sectors s h = elim (Bool-cases (b.detect s.disk.disk)) [
    | inl e ↦ rw (e, cmd_disk) h
    | inr e ↦ rw (e, cmd_disk) h
  ]

  cmd_edit-IsValid :
      (o : Outside) (args : List (List ℕ)) (t : Session b)
      → IsValid t.shell
      → IsValid (cmd_edit o args t).shell
  unfolding cmd_edit editor_run tell on_screen
  cmd_edit-IsValid o args t h = elim (Bool-cases (ltb (length args) 2)) [
    | inl e ↦ rw (e, cmd_edit) h
    | inr e ↦ rw (e, cmd_edit) (edit_keys-IsTree o.typed _ t.shell.nodes t.shell.cwd_node h)
  ]

  cmd_spkg-IsValid :
      (args : List (List ℕ)) (s : Shell b)
      → str_eq (arg args 1) (codes "install") ≡ false
      → IsValid s
      → AllValid (cmd_spkg args s)
  unfolding cmd_spkg spkg_help spkg_list with_system system_of tell on_screen spk_list spk_remove
  cmd_spkg-IsValid args s no_install h = elim (Bool-cases (ltb (length args) 2)) [
    | inl e ↦ rw (e, cmd_spkg) h
    | inr e ↦ elim (Bool-cases (str_eq (arg args 1) (codes "list"))) [
      | inl f ↦ rw (e, f, cmd_spkg) h
      | inr f ↦ elim (Bool-cases (str_eq (arg args 1) (codes "remove") && ltb 2 (length args))) [
        | inl g ↦ rw (e, f, no_install, g, cmd_spkg) h
        | inr g ↦ rw (e, f, no_install, g, cmd_spkg) h
      ]
    ]
  ]

  spkg-EndsValid :
      (t : Session b) (r : Option (Shell b))
      → AllValid r
      → EndsValid (elim r [ none ↦ spoilt | some s ↦ goes_on (record t { shell = s }) ])
  spkg-EndsValid t none h = tt
  spkg-EndsValid t (some s) h = h

  run_command-IsValid :
      (c : Command) (o : Outside) (args : List (List ℕ)) (t : Session b)
      → (c ≡ spkg → str_eq (arg args 1) (codes "install") ≡ false)
      → c ≢ exec
      → IsValid t.shell
      → EndsValid (run_command c o args t)
  unfolding run_command on_screen cmd_help cmd_clear cmd_uptime cmd_mem cmd_pwd cmd_echo cmd_uname
      cmd_ps cmd_neofetch tell say draw_titlebar
  run_command-IsValid help o args t n x h = h
  run_command-IsValid clear_all o args t n x h = h
  run_command-IsValid ls o args t n x h = elim (Bool-cases (ltb 1 (length args))) [
    | inl e ↦ rw e (cmd_ls-IsValid args t.shell h)
    | inr e ↦ rw e (cmd_ls_disk-IsValid t.shell h)
  ]
  run_command-IsValid cd o args t n x h = cmd_cd-IsValid args t.shell h
  run_command-IsValid pwd o args t n x h = h
  run_command-IsValid cat o args t n x h = cmd_cat-IsValid o.stack args t.shell h
  run_command-IsValid touch o args t n x h = cmd_touch-IsValid args t.shell h
  run_command-IsValid mkdir o args t n x h = cmd_mkdir-IsValid args t.shell h
  run_command-IsValid rm o args t n x h = cmd_rm-IsValid args t.shell h
  run_command-IsValid cp o args t n x h = cmd_cp-IsValid o.stack args t.shell h
  run_command-IsValid mv o args t n x h = cmd_mv-IsValid args t.shell h
  run_command-IsValid write o args t n x h = cmd_write-IsValid args t.shell h
  run_command-IsValid edit o args t n x h = cmd_edit-IsValid o args t h
  run_command-IsValid echo o args t n x h = h
  run_command-IsValid mem o args t n x h = h
  run_command-IsValid disk o args t n x h = cmd_disk-IsValid o.model o.sectors t.shell h
  run_command-IsValid uname o args t n x h = h
  run_command-IsValid uptime o args t n x h = h
  run_command-IsValid ps o args t n x h = h
  run_command-IsValid kill o args t n x h = cmd_kill-IsValid args t.shell h
  run_command-IsValid neofetch o args t n x h = h
  run_command-IsValid snake o args t n x h = h
  run_command-IsValid exec o args t n x h = absurd (x refl)
  run_command-IsValid spkg o args t n x h =
      spkg-EndsValid t (cmd_spkg args t.shell) (cmd_spkg-IsValid args t.shell (n refl) h)
  run_command-IsValid reboot o args t n x h = tt
  run_command-IsValid halt o args t n x h = tt
  run_command-IsValid unknown o args t n x h = h

  run_words-IsValid :
      (line : List ℕ) (o : Outside) (args : List (List ℕ)) (t : Session b)
      → bars args ≡ false
      → IsValid t.shell
      → EndsValid (run_words line o args t)
  unfolding run_words
  run_words-IsValid line o [] t n h = h
  run_words-IsValid line o (w ∷ ws) t n h =
      run_command-IsValid (command_of w) o (w ∷ ws) t (not_spkg w ws n) (not_exec w ws n) h

  -- Whatever line is entered but those that `bars` names, whatever the editor and the game do with it, and with any
  -- disk: if the shell goes on, the tree in memory is well formed and the current directory is a directory of it, as
  -- before.
  pub execute-IsValid :
      (input : List ℕ) (o : Outside) (t : Session b)
      → bars (parse (trim input)) ≡ false
      → IsValid t.shell
      → EndsValid (execute input o t)
  unfolding execute
  execute-IsValid input o t n h =
      let line = trim input in
      elim (Bool-cases (length line == 0)) [
        | inl e ↦ rw (e, execute) h
        | inr e ↦
            rw (e, execute)
              (run_words-IsValid line o (parse line) (record t { shell = hist_push line t.shell }) n
                (hist_push-IsValid line t.shell h))
      ]
