-- ===== src/Pkg/Spk.antt =====
-- pkg/spk.c: the package manager. A package is the list of its bytes from the pointer on; a string in it
-- ends at its terminator, wherever that stands. `none` stands for a package whose strings run over the arrays
-- of the installer. The lines that go to the serial port are not kept.
mod Tests
use stellares_os.Common.{
  ℕ, zero, suc, ◌+◌, ◌-◌, ◌*◌, ◌%◌, ◌^◌, Bool, true, false, ◌&&◌, ◌||◌, not, Option, none, some,
  List, [], ◌∷◌, ◌++◌, ltb, leb, ◌==◌, if◌then◌else◌, length, take, drop, get_or, str_eq, codes,
}
use stellares_os.Libc.Str.{c_str, strlen}
use stellares_os.Libc.Token.{tokens}
use stellares_os.Fs.Device.{BlockDevice}
use stellares_os.Fs.Disk.{State}
use stellares_os.Fs.Disk as Disk
use stellares_os.Fs.Ram.{Nodes, slash, strip_slash}
use stellares_os.Fs.Ram as Ram
use stellares_os.Drivers.Vga.{Screen, puts, set_attr}
use stellares_os.Drivers.Vga.Printf.{str, vga_printf}

pub data Result : Type 0 where
  ok invalid no_space exists error : Result

-- Four bytes, the lowest first.
pub le32 : List ℕ → ℕ → ℕ
le32 bs i =
    get_or bs i 0
    + 256 * get_or bs (i + 1) 0
    + 65536 * get_or bs (i + 2) 0
    + 16777216 * get_or bs (i + 3) 0

-- `spk_header_t`, the fields that the functions look at; it has 316 bytes.
pub record Header : Type 0 where
  pub magic : ℕ
  pub version : ℕ
  pub name : List ℕ
  pub pkg_ver : List ℕ
  pub nfiles : ℕ

pub header : List ℕ → Header
header bs = record {
  magic = le32 bs 0;
  version = le32 bs 4;
  name = c_str (drop 8 bs);
  pkg_ver = c_str (drop 56 bs);
  nfiles = le32 bs 248;
}

-- `spk_file_entry_t`; it has 152 bytes.
pub record Entry : Type 0 where
  pub path : List ℕ
  pub offset : ℕ
  pub size : ℕ

pub entry : List ℕ → ℕ → Entry
entry bs i =
    let p = 316 + 152 * i in
    record { path = c_str (drop p bs); offset = le32 bs (p + 128); size = le32 bs (p + 132) }

-- `last - e->path`: the length up to and with the last slash.
pub dir_length : List ℕ → ℕ → ℕ → ℕ
dir_length [] i last = last
dir_length (c ∷ s) i last = dir_length s (i + 1) (if c == 47 then i + 1 else last)

-- The file system in memory, the one on the disk, and the screen.
module _ (b : BlockDevice) where
  pub record System : Type 0 where
    pub nodes : Nodes
    pub disk : State b
    pub screen : Screen

-- One round of the loop over the parts of the directory: it is found or made, and where neither works the
-- round changes nothing.
pub enter : Nodes → ℕ → List ℕ → ℕ × Nodes
enter ns parent tok = elim (Ram.find ns parent tok) [
  | some d ↦ (d, ns)
  | none ↦
      let (d, ns') = Ram.mkdir ns parent tok in elim d [ none ↦ (parent, ns') | some n ↦ (n, ns') ]
]

pub enter_all : List (List ℕ) → ℕ × Nodes → ℕ × Nodes
enter_all [] r = r
enter_all (t ∷ ts) (parent, ns) = enter_all ts (enter ns parent t)

-- The directory of a file, with its missing parts made below the root. It has fewer than 128 bytes, so that
-- `ramfs_resolve` sets the end of its array.
pub parent_of : Nodes → List ℕ → ℕ × Nodes
parent_of ns dir = elim (Ram.resolve [] ns dir) [
  | some p ↦ (p, ns)
  | none ↦ enter_all (tokens slash (strip_slash dir)) (0, ns)
]

-- The file is found or made, and written.
pub put_file : Nodes → ℕ → List ℕ → List ℕ → ℕ → Nodes
put_file ns parent base bytes size =
    let (f, ns') : Option ℕ × Nodes = elim (Ram.find ns parent base) [
      | some f ↦ (some f, ns)
      | none ↦ Ram.create ns parent base
    ] in
    elim f [ none ↦ ns' | some f ↦ (Ram.write ns' f bytes size).1 ]

-- The part of a round that concerns the file system in memory.
pub extract : List ℕ → Entry → Nodes → Nodes
unfolding parent_of
extract bs e ns =
    let n = dir_length e.path 0 0 in
    let (parent, ns') = parent_of ns (take n e.path) in
    put_file ns' parent (drop n e.path) (drop e.offset bs) e.size

-- `if (diskfs_ready()) diskfs_write(...)`; the result is not looked at.
pub save : {b : BlockDevice} → List ℕ → List ℕ → ℕ → State b → State b
save {b} name bytes size s = if s.fs_ready then (Disk.write_file b name bytes size s).1 else s

pub install_entry : {b : BlockDevice} → List ℕ → Entry → System b → System b
install_entry bs e s = record s {
  nodes = extract bs e s.nodes;
  disk = save (drop (dir_length e.path 0 0) e.path) (drop e.offset bs) e.size s.disk;
}

-- The entries from `i` on, by the count that is left.
pub install_from : {b : BlockDevice} → ℕ → ℕ → List ℕ → System b → System b
install_from zero i bs s = s
install_from (suc k) i bs s = install_from k (i + 1) bs (install_entry bs (entry bs i) s)

pub record_name : List ℕ → List ℕ
record_name name = codes "installed_" ++ name

-- Whether the part of the path up to its last slash runs over `dir[128]`, or the one behind it over
-- `base[48]`.
pub path_overflows : List ℕ → Bool
path_overflows path = let n = dir_length path 0 0 in ltb 127 n || ltb 47 (length (drop n path))

pub paths_overflow : ℕ → ℕ → List ℕ → Bool
paths_overflow zero i bs = false
paths_overflow (suc k) i bs = path_overflows (entry bs i).path || paths_overflow k (i + 1) bs

-- The same for `rec[128]`, with its blank and its line break, and for `rec_name[48]`.
pub overflows : List ℕ → Bool
overflows bs =
    let h = header bs in
    paths_overflow h.nfiles 0 bs
    || ltb 127 (length h.name + 1 + length h.pkg_ver + 1)
    || ltb 47 (length (record_name h.name))

-- The null pointer is the inner `none`; the outer one is a package whose strings run over the arrays.
pub spk_install : {b : BlockDevice} → Option (List ℕ) → ℕ → System b → Option (Result × System b)
unfolding overflows
spk_install none size s = some (invalid, s)
spk_install (some bs) size s =
    let h = header bs in
    if ltb size 316 || not (h.magic == 0x4B505453) || not (h.version == 1)
    then some (invalid, s)
    else if overflows bs
    then none
    else (let t = install_from h.nfiles 0 bs s in
        let rec = h.name ++ (32 ∷ h.pkg_ver) ++ (10 ∷ []) in
        some (
          ok,
          record t {
            disk = save (record_name h.name) rec (strlen rec) t.disk;
            screen =
                vga_printf (codes "  Instalado: %s %s\n")
                  (str (some h.name) ∷ str (some h.pkg_ver) ∷ []) t.screen;
          },
        ))

unfoldable pub spk_remove : {b : BlockDevice} → List ℕ → System b → Result × System b
spk_remove {b} name s = (
  ok,
  record s {
    disk = if s.disk.fs_ready then (Disk.delete_file b (record_name name) s.disk).1 else s.disk;
    screen = vga_printf (codes "  Removido: %s\n") (str (some name) ∷ []) s.screen;
  },
)

pub spk_installed : {b : BlockDevice} → List ℕ → System b → Bool
spk_installed {b} name s = s.disk.fs_ready && Disk.exists b (record_name name) s.disk

-- The loop of `spk_list`, with the count of what it found.
pub list_names : List (List ℕ × ℕ) → ℕ × Screen → ℕ × Screen
list_names [] r = r
list_names ((name, size) ∷ files) (found, scr) = list_names files (
    if str_eq (take 10 name) (codes "installed_")
    then (found + 1, vga_printf (codes "  %s\n") (str (some (drop 10 name)) ∷ []) (set_attr 10 scr))
    else (found, scr))

unfoldable pub spk_list : {b : BlockDevice} → System b → System b
spk_list {b} s =
    let scr = s.screen in
    record s {
      screen = elim (Disk.list b s.disk) [
        | none ↦ puts (codes "  Disco nao disponivel.\n") scr
        | some files ↦
            let (found, scr') = list_names files (0, scr) in
            if found == 0 then puts (codes "  Nenhum pacote instalado.\n") scr' else scr'
      ];
    }
