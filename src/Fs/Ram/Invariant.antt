-- ===== src/Fs/Ram/Invariant.antt =====
-- The tree of fs/ramfs.c stays well formed under the calls that change it.
use stellares_os.Common.{
  ℕ, zero, suc, ◌+◌, ◌<◌, ◌≤◌, ◌≡◌, ◌≢◌, refl, sym, inl, inr, true, some, List, [], ◌∷◌, arith,
  length, set, get_or-set, ◌==◌, if◌then◌else◌, str_eq, Has, IsDistinct, Bool-cases,
}
use stellares_os.Fs.Ram.{
  free, dir, Node, Nodes, node_at, no_node, is_free, alloc_from, alloc_node, find_child,
}

-- What links a directory `i` to an entry `c` of its table.
pub record IsChild (ns : Nodes) (i c : ℕ) : Type 0 where
  pub inside : c < 128
  pub not_root : c ≢ 0
  pub in_use : (node_at ns c).type ≢ free
  pub linked : (node_at ns c).parent ≡ some i

pub record IsValid (ns : Nodes) : Type 0 where
  pub slots : length ns ≡ 128
  pub root : (node_at ns 0).type ≡ dir
  pub leaves : (i : ℕ) → (node_at ns i).type ≢ dir → (node_at ns i).children ≡ []
  pub room : (i : ℕ) → length (node_at ns i).children ≤ 32
  pub children : (i c : ℕ) → Has c (node_at ns i).children → IsChild ns i c
  pub distinct : (i : ℕ) → IsDistinct (node_at ns i).children

pub node_at-set :
    (ns : Nodes) (i j : ℕ) (n : Node)
    → i < length ns
    → node_at (set ns i n) j ≡ (if i == j then n else node_at ns j)
node_at-set ns i j n h = get_or-set ns i j n no_node h

alloc_from-free :
    (ns : Nodes) (i n : ℕ)
    → alloc_from ns i ≡ some n
    → (k : ℕ) × (n ≡ i + k) × (k < length ns) × ((node_at ns k).type ≡ free)
unfolding alloc_from
alloc_from-free [] i n h = cc
alloc_from-free (m ∷ ns) i n h = elim (Bool-cases (is_free m.type)) [
  | inl e ↦ (0, ground arith, omega arith, ground arith)
  | inr e ↦
      let (k, p, q, r) = alloc_from-free ns (i + 1) n (rw (e, alloc_from) at h) in
      (suc k, omega arith, omega arith, r)
]

-- `alloc_node` returns a slot of the table that is free.
pub alloc_node-free :
    (ns : Nodes) (n : ℕ) → alloc_node ns ≡ some n → (n < length ns) × ((node_at ns n).type ≡ free)
unfolding alloc_node
alloc_node-free ns n h =
    let (k, p, q, r) = alloc_from-free ns 0 n h in
    let e : n ≡ k = omega arith in (omega arith, rw e r)

pub find_child-Has :
    (ns : Nodes) (cs name : List ℕ) (c : ℕ)
    → find_child ns cs name ≡ some c
    → Has c cs × (str_eq (node_at ns c).name name ≡ true)
unfolding find_child
find_child-Has ns [] name c h = cc
find_child-Has ns (x ∷ cs) name c h = elim (Bool-cases (str_eq (node_at ns x).name name)) [
  | inl e ↦ let p : x ≡ c = ground arith in (inl (sym p), rw (← p) e)
  | inr e ↦ let q = find_child-Has ns cs name c (rw (e, find_child) at h) in (inr q.0, q.1)
]

pub in_table : (ns : Nodes) (i : ℕ) → (node_at ns i).type ≢ free → i < length ns
in_table [] i h = absurd (h refl)
in_table (n ∷ ns) zero h = omega arith
in_table (n ∷ ns) (suc i) h = omega (arith, in_table ns i h)
