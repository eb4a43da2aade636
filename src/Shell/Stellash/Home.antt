-- ===== src/Shell/Stellash/Home.antt =====
-- The start of shell/stellash.c: the directories, the home of the user and the files of the disk.
use stellares_os.Common.{
  ℕ, zero, suc, Bool, ◌||◌, Option, none, some, List, [], ◌∷◌, ◌++◌, if◌then◌else◌, take, codes,
  str_eq, replicate,
}
use stellares_os.Fs.Device.{BlockDevice}
use stellares_os.Fs.Disk.{State, read_file}
use stellares_os.Fs.Disk as Disk
use stellares_os.Fs.Ram.{Nodes, find, mkdir, create, write}
use stellares_os.Fs.Ram.Init as Ram
use stellares_os.Kernel.Login.{Account}
use stellares_os.Shell.Stellash.{Shell}

-- `d = ramfs_find(p, name); if (!d) d = ramfs_mkdir(p, name)`
pub find_or_mkdir : Nodes → ℕ → List ℕ → Option ℕ × Nodes
find_or_mkdir ns p name = elim (find ns p name) [ some d ↦ (some d, ns) | none ↦ mkdir ns p name ]

pub mkdirs : List (List ℕ) → ℕ → Nodes → Nodes
unfolding find_or_mkdir
mkdirs [] p ns = ns
mkdirs (name ∷ names) p ns = mkdirs names p (find_or_mkdir ns p name).1

-- `xdg_dirs`
abbrev pub xdg_dirs : List (List ℕ)
xdg_dirs =
    codes "Documentos"
    ∷ codes "Downloads"
    ∷ codes "Imagens"
    ∷ codes "Musicas"
    ∷ codes "Videos"
    ∷ codes "Desktop"
    ∷ codes "Projetos"
    ∷ codes ".config"
    ∷ []

-- A file of the disk that is not empty goes to the directory under a name.
pub put_loaded : Option ℕ × List ℕ → Option ℕ × Nodes → Nodes → Nodes
put_loaded (none, buf) (f, ns') ns = ns
put_loaded (some zero, buf) (f, ns') ns = ns
put_loaded (some (suc n), buf) (none, ns') ns = ns'
put_loaded (some (suc n), buf) (some f, ns') ns = (write ns' f (take (suc n) buf) (suc n)).1

pub is_system : List ℕ → Bool
is_system name =
    str_eq name (codes "passwd")
    || str_eq name (codes "installed")
    || str_eq name (codes "homepath")
    || str_eq name (codes "README")

module _ {b : BlockDevice} where
  -- The loop over the names of the disk. The buffer of 4096 bytes is written before it is read.
  pub load_files : List (List ℕ × ℕ) → ℕ → State b → Nodes → Nodes
  unfolding put_loaded is_system
  load_files [] dir d ns = ns
  load_files ((name, size) ∷ files) dir d ns =
      let found : Option ℕ × Nodes = elim (find ns dir name) [
        | some f ↦ (some f, ns)
        | none ↦ create ns dir name
      ] in
      let ns' = put_loaded (read_file b name (replicate 4096 0) 4095 d) found ns in
      load_files files dir d (if is_system name then ns else ns')

  pub load_disk : ℕ → State b → Nodes → Nodes
  load_disk dir d ns =
      if d.fs_ready
      then (let ns1 =
            put_loaded (read_file b (codes "README") (replicate 4096 0) 4095 d)
              (create ns dir (codes "README.txt")) ns in
          elim (Disk.list b d) [ none ↦ ns1 | some files ↦ load_files files dir d ns1 ])
      else ns

  pub enter_home : Option ℕ × Nodes → Shell b → Shell b
  unfolding mkdirs
  enter_home (none, ns) s = record s { nodes = ns }
  enter_home (some dir, ns) s = record s {
    nodes = load_disk dir s.disk (mkdirs xdg_dirs dir ns);
    cwd_node = dir;
    cwd_path = codes "/home/" ++ s.logged_user;
  }

  pub setup_user_home : Shell b → Shell b
  setup_user_home s =
      if str_eq s.logged_home (47 ∷ [])
      then s
      else (let (home, ns) = find_or_mkdir s.nodes 0 (codes "home") in
          elim home [
            | none ↦ record s { nodes = ns }
            | some h ↦ enter_home (find_or_mkdir ns h s.logged_user) s
          ])

  -- `stellash_run` up to the splash screen.
  pub start : Shell b → Shell b
  start s =
      let root = Ram.init s.nodes in
      let home = (mkdir root 0 (codes "home")).1 in
      let tmp = (mkdir home 0 (codes "tmp")).1 in
      let etc = (mkdir tmp 0 (codes "etc")).1 in
      let bin = (mkdir etc 0 (codes "bin")).1 in
      setup_user_home (record s { nodes = bin; cwd_node = 0; cwd_path = 47 ∷ [] })

  -- `stellash_run_as`: the buffers of 32 and 64 bytes.
  pub log_in : Option Account → Shell b → Shell b
  log_in none s = s
  log_in (some user) s = record s {
    logged_user = take 31 user.username;
    logged_home = take 63 user.home;
  }
