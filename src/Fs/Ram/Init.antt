-- ===== src/Fs/Ram/Init.antt =====
-- `ramfs_init` of fs/ramfs.c: the tree that the kernel starts with.
use stellares_os.Common.{
  ℕ, zero, suc, ◌≡◌, refl, ap, ◌∙◌, ◌⊎◌, inl, inr, false, Option, none, some, List, [], ◌∷◌, ◌++◌,
  arith, length, length-set, codes, Has, ◌==◌, if◌then◌else◌, subst,
}
use stellares_os.Fs.Ram.{
  Node, Nodes, NodeType, free, file, dir, node_at, is_file, mkdir, create, write, reset_all,
  with_root, new_dir, new_file,
}
use stellares_os.Fs.Ram.Invariant.{IsValid, node_at-set}
use stellares_os.Fs.Ram.Link.{
  mkdir-IsValid, create-IsValid, mkdir_cases, create_cases, node_at-link, new_dir-IsNew,
  new_file-IsNew,
}
use stellares_os.Fs.Ram.Contents.{write-IsValid, write_dir}

-- The null pointer as a parent or as a file.
pub create_at : Nodes → Option ℕ → List ℕ → Option ℕ × Nodes
create_at ns none name = (none, ns)
create_at ns (some p) name = create ns p name

pub write_at : Nodes → Option ℕ → List ℕ → ℕ → Option ℕ × Nodes
write_at ns none buf len = (none, ns)
write_at ns (some f) buf len = write ns f buf len

abbrev motd_text : List ℕ
motd_text =
    codes
      "Bem-vindo ao StellaresOS v0.1!\nUm microkernel x86 feito do zero.\nDigite 'help' para ver os comandos.\n"

abbrev version_text : List ℕ
version_text = codes "StellaresOS v0.1 (i386)\n"

abbrev readme_text : List ℕ
readme_text =
    codes "=== StellaresOS ===\n\nEste e o seu diretorio home.\n"
    ++ codes "Voce pode criar arquivos com: touch <nome>\nEscrever com: write <arquivo> <texto>\n"
    ++ codes "Ler com: cat <arquivo>\nListar com: ls\n"

-- A file with its text, as `ramfs_create` and `ramfs_write` with length 0 make it.
pub default_file : Nodes → Option ℕ → List ℕ → List ℕ → Nodes
unfolding create_at write_at
default_file ns p name text = let (f, ns') = create_at ns p name in (write_at ns' f text 0).1

pub init : Nodes → Nodes
init ns =
    let (bin, n1) = mkdir (with_root ns) 0 (codes "bin") in
    let (etc, n2) = mkdir n1 0 (codes "etc") in
    let (home, n3) = mkdir n2 0 (codes "home") in
    let (tmp, n4) = mkdir n3 0 (codes "tmp") in
    let (usr, n5) = mkdir n4 0 (codes "usr") in
    let n6 = default_file n5 etc (codes "motd") motd_text in
    let n7 = default_file n6 etc (codes "version") version_text in
    default_file n7 home (codes "README.txt") readme_text

length-reset_all : (ns : Nodes) → length (reset_all ns) ≡ length ns
unfolding reset_all
length-reset_all [] = refl
length-reset_all (n ∷ ns) = ap suc (length-reset_all ns)

reset_all-clear :
    (ns : Nodes) (i : ℕ)
    → ((node_at (reset_all ns) i).children ≡ []) × ((node_at (reset_all ns) i).type ≡ free)
unfolding reset_all
reset_all-clear [] i = (refl, refl)
reset_all-clear (n ∷ ns) zero = (refl, refl)
reset_all-clear (n ∷ ns) (suc i) = reset_all-clear ns i

node_at-with_root :
    (ns : Nodes) (i : ℕ)
    → length ns ≡ 128
    → ((node_at (with_root ns) i).children ≡ [])
      × ((node_at (with_root ns) i).type ≡ (if 0 == i then dir else free))
unfolding with_root
node_at-with_root ns i e = ground (
  arith,
  length-reset_all ns,
  reset_all-clear ns i,
  reset_all-clear ns 0,
  node_at-set (reset_all ns) 0 i
      (record (node_at (reset_all ns) 0) { type = dir; name = 47 ∷ []; parent = some 0 }),
)

pub with_root-IsValid : (ns : Nodes) → length ns ≡ 128 → IsValid (with_root ns)
unfolding with_root
with_root-IsValid ns e = record {
  slots = length-set (reset_all ns) 0 _ ∙ length-reset_all ns ∙ e;
  root = (node_at-with_root ns 0 e).1;
  leaves = λ i h. (node_at-with_root ns i e).0;
  room = λ i. rw (node_at-with_root ns i e).0 (omega arith);
  children = λ i c h. absurd (nothing i c h);
  distinct = λ i. rw (node_at-with_root ns i e).0 tt;
}
  where
    nothing : (i c : ℕ) → ¬ Has c (node_at (with_root ns) i).children
    nothing i c h =
        let none_left : Has c [] = subst (Has c) {y = []} (node_at-with_root ns i e).0 h in
        none_left

-- The directories that there are.
abbrev IsDir : Nodes → Option ℕ → Type 0
IsDir ns none = Unit {0}
IsDir ns (some p) = (node_at ns p).type ≡ dir

-- Nothing below takes a directory away.
abbrev Keeps : Nodes → Nodes → Type 0
Keeps ns ns' = (j : ℕ) → (node_at ns j).type ≡ dir → (node_at ns' j).type ≡ dir

record Grows (ns : Nodes) (r : Option ℕ × Nodes) : Type 0 where
  valid : IsValid r.1
  keeps : Keeps ns r.1

module _ (ns : Nodes) (p : ℕ) (name : List ℕ) (v : IsValid ns) (d : (node_at ns p).type ≡ dir) where
  mkdir-IsDir : IsDir (mkdir ns p name).1 (mkdir ns p name).0
  mkdir-IsDir =
      mkdir_cases (λ r. IsDir r.1 r.0) ns p name tt
        λ n h f g.
          let w = new_dir-IsNew ns p v d name n h g in
          ground (
            arith,
            node_at-link ns p n (new_dir (node_at ns n) p name) v w n,
            d,
            new_dir_type (node_at ns n),
          )
    where
      new_dir_type : (old : Node) → (new_dir old p name).type ≡ dir
      new_dir_type old = unfold new_dir in refl

  mkdir-Grows : Grows ns (mkdir ns p name)
  mkdir-Grows = record { valid = mkdir-IsValid ns p v d name; keeps = keeps }
    where
      keeps : Keeps ns (mkdir ns p name).1
      keeps =
          mkdir_cases (λ r. Keeps ns r.1) ns p name (λ j e. e)
            λ n h f g j e.
              let w = new_dir-IsNew ns p v d name n h g in
              ground (
                arith,
                node_at-link ns p n (new_dir (node_at ns n) p name) v w j,
                d,
                w.unused,
                e,
                (λ (q : n ≡ j). ap (λ k. (node_at ns k).type) q),
              )

  create-Grows : Grows ns (create ns p name)
  create-Grows = record { valid = create-IsValid ns p v d name; keeps = keeps }
    where
      keeps : Keeps ns (create ns p name).1
      keeps =
          create_cases (λ r. Keeps ns r.1) ns p name (λ j e. e) (λ c f j e. e)
            λ n h f g j e.
              let w = new_file-IsNew ns p v d name n h g in
              ground (
                arith,
                node_at-link ns p n (new_file (node_at ns n) p name) v w j,
                d,
                w.unused,
                e,
                (λ (q : n ≡ j). ap (λ k. (node_at ns k).type) q),
              )

file_or_not : (t : NodeType) → (t ≡ file) ⊎ (is_file t ≡ false)
file_or_not file = inl refl
file_or_not free = inr refl
file_or_not dir = inr refl

write-Grows :
    (ns : Nodes) (f : ℕ) (buf : List ℕ) (len : ℕ) → IsValid ns → Grows ns (write ns f buf len)
unfolding write
write-Grows ns f buf len v = elim (file_or_not (node_at ns f).type) [
  | inl e ↦ record {
    valid = write-IsValid ns f buf len e v;
    keeps = λ j d. write_dir ns f buf len e j d;
  }
  | inr e ↦ rw (e, write) (record { valid = v; keeps = λ j d. d })
]

default_file-Grows :
    (ns : Nodes) (p : Option ℕ) (name text : List ℕ)
    → IsValid ns
    → IsDir ns p
    → Grows ns (none, default_file ns p name text)
unfolding default_file
default_file-Grows ns none name text v d = record { valid = v; keeps = λ j e. e }
default_file-Grows ns (some p) name text v d =
    let made = create-Grows ns p name v d in written (create ns p name) made
  where
    written : (r : Option ℕ × Nodes) → Grows ns r → Grows ns (none, (write_at r.1 r.0 text 0).1)
    written (none, ns') g = record { valid = g.valid; keeps = g.keeps }
    written (some f, ns') g =
        let w = write-Grows ns' f text 0 g.valid in
        record { valid = w.valid; keeps = λ j e. w.keeps j (g.keeps j e) }

IsDir-kept : (ns ns' : Nodes) (o : Option ℕ) → Keeps ns ns' → IsDir ns o → IsDir ns' o
IsDir-kept ns ns' none k d = tt
IsDir-kept ns ns' (some p) k d = k p d

-- The tree that `ramfs_init` builds is well formed, whatever the table of 128 slots held before.
pub init-IsValid : (ns : Nodes) → length ns ≡ 128 → IsValid (init ns)
unfolding init
init-IsValid ns e =
    let v0 = with_root-IsValid ns e in
    let n0 = with_root ns in
    let m1 = mkdir n0 0 (codes "bin") in
    let g1 = mkdir-Grows n0 0 (codes "bin") v0 v0.root in
    let m2 = mkdir m1.1 0 (codes "etc") in
    let g2 = mkdir-Grows m1.1 0 (codes "etc") g1.valid g1.valid.root in
    let etc = mkdir-IsDir m1.1 0 (codes "etc") g1.valid g1.valid.root in
    let m3 = mkdir m2.1 0 (codes "home") in
    let g3 = mkdir-Grows m2.1 0 (codes "home") g2.valid g2.valid.root in
    let home = mkdir-IsDir m2.1 0 (codes "home") g2.valid g2.valid.root in
    let m4 = mkdir m3.1 0 (codes "tmp") in
    let g4 = mkdir-Grows m3.1 0 (codes "tmp") g3.valid g3.valid.root in
    let m5 = mkdir m4.1 0 (codes "usr") in
    let g5 = mkdir-Grows m4.1 0 (codes "usr") g4.valid g4.valid.root in
    let etc5 = IsDir-kept m2.1 m5.1 m2.0 (λ j d. g5.keeps j (g4.keeps j (g3.keeps j d))) etc in
    let home5 = IsDir-kept m3.1 m5.1 m3.0 (λ j d. g5.keeps j (g4.keeps j d)) home in
    let n6 = default_file m5.1 m2.0 (codes "motd") motd_text in
    let g6 = default_file-Grows m5.1 m2.0 (codes "motd") motd_text g5.valid etc5 in
    let n7 = default_file n6 m2.0 (codes "version") version_text in
    let g7 =
      default_file-Grows n6 m2.0 (codes "version") version_text g6.valid
        (IsDir-kept m5.1 n6 m2.0 g6.keeps etc5) in
    (default_file-Grows n7 m3.0 (codes "README.txt") readme_text g7.valid
      (IsDir-kept n6 n7 m3.0 g7.keeps (IsDir-kept m5.1 n6 m3.0 g6.keeps home5))).valid
