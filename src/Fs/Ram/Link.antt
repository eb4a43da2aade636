-- ===== src/Fs/Ram/Link.antt =====
-- Linking a new node into a directory of fs/ramfs.c keeps the tree well formed.
use stellares_os.Common.{
  ℕ, ◌<◌, ◌≡◌, ◌≢◌, refl, ap, ◌∙◌, inl, inr, false, Option, none, some, List, [], ◌∷◌, ◌++◌, arith,
  length, length-set, length-append, set, ◌==◌, leb, if◌then◌else◌, Has, Has-snoc, IsDistinct,
  IsDistinct-snoc, Bool-cases, Option-cases, subst, ==_iff,
}
use stellares_os.Fs.Ram.{
  free, dir, Node, Nodes, node_at, alloc_node, find, link, new_dir, new_file, mkdir, create,
}
use stellares_os.Fs.Ram.Invariant.{IsValid, IsChild, in_table, node_at-set, alloc_node-free}

-- A new entry `n` of the directory `p`.
module _ (ns : Nodes) (p n : ℕ) (m : Node) (v : IsValid ns) where
  pub record IsNew : Type 0 where
    pub in_dir : (node_at ns p).type ≡ dir
    pub slot : n < length ns
    pub unused : (node_at ns n).type ≡ free
    pub fits : length (node_at ns p).children < 32
    pub used : m.type ≢ free
    pub empty : m.children ≡ []
    pub up : m.parent ≡ some p

  module _ (w : IsNew) where
    apart : p ≢ n
    apart e = ground (arith, w.in_dir, w.unused, ap (λ i. (node_at ns i).type) e)

    p_in : p < length ns
    p_in = in_table ns p (λ e. cc w.in_dir)

    pub node_at-link :
        (j : ℕ)
        → node_at (link ns p n m) j ≡ (
            if p == j
            then record (node_at ns p) { children = (node_at ns p).children ++ (n ∷ []) }
            else if n == j
            then m
            else node_at ns j)
    node_at-link j =
        unfold link in
        ground (
          arith,
          apart,
          p_in,
          w.slot,
          length-set ns n m,
          node_at-set ns n p m,
          node_at-set ns n j m,
          node_at-set (set ns n m) p j (record (node_at (set ns n m) p) {
            children = (node_at (set ns n m) p).children ++ (n ∷ []);
          }),
        )

    kept : (i c : ℕ) → IsChild ns i c → IsChild (link ns p n m) i c
    kept i c k = ground (arith, k, node_at-link c, w, apart)

    added : IsChild (link ns p n m) p n
    added = record {
      inside = omega (arith, v.slots, w.slot);
      not_root = λ e. ground (arith, v.root, w.unused, ap (λ i. (node_at ns i).type) e);
      in_use = ground (arith, node_at-link n, apart, w.used);
      linked = ground (arith, node_at-link n, apart, w.up);
    }

    pub kids :
        (j : ℕ)
        → (node_at (link ns p n m) j).children ≡ (
            if p == j
            then (node_at ns p).children ++ (n ∷ [])
            else if n == j
            then []
            else (node_at ns j).children)
    kids j = ground (arith, node_at-link j, w.empty)

    children' : (i c : ℕ) → Has c (node_at (link ns p n m) i).children → IsChild (link ns p n m) i c
    children' i c h = elim (Bool-cases (p == i)) [
      | inl e ↦
          let q = (==_iff p i).0 e in
          elim (Has-snoc c n (node_at ns p).children (subst (Has c) (kids i ∙ rw e) h)) [
            | inl k ↦ rw (← q) (kept p c (v.children p c k))
            | inr k ↦ rw (k, ← q) added
          ]
      | inr e ↦ elim (Bool-cases (n == i)) [
        | inl f ↦
            let none_left : Has c [] = subst (Has c) {y = []} (kids i ∙ rw (e, f)) h in
            absurd none_left
        | inr f ↦ kept i c (v.children i c (subst (Has c) (kids i ∙ rw (e, f)) h))
      ]
    ]

    distinct' : (i : ℕ) → IsDistinct (node_at (link ns p n m) i).children
    distinct' i = rw (kids i) (elim (Bool-cases (p == i)) [
      | inl e ↦ rw e (IsDistinct-snoc n (node_at ns p).children (v.distinct p) fresh)
      | inr e ↦ elim (Bool-cases (n == i)) [
        | inl f ↦ rw (e, f) tt
        | inr f ↦ rw (e, f) (v.distinct i)
      ]
    ])
      where
        fresh : ¬ Has n (node_at ns p).children
        fresh k = (v.children p n k).in_use w.unused

    -- A free slot can be linked below a directory that has room.
    pub link-IsValid : IsValid (link ns p n m)
    link-IsValid = record {
      slots = length-link;
      root = ground (arith, node_at-link 0, v.root, w);
      leaves = λ i h. ground (arith, node_at-link i, v.leaves i, w);
      room =
          λ i. ground (arith, kids i, v.room i, w, length-append (node_at ns p).children (n ∷ []));
      children = children';
      distinct = distinct';
    }
      where
        length-link : length (link ns p n m) ≡ 128
        length-link =
            unfold link in
            omega (
              arith,
              v.slots,
              length-set ns n m,
              length-set (set ns n m) p (record (node_at (set ns n m) p) {
                children = (node_at (set ns n m) p).children ++ (n ∷ []);
              }),
            )

-- The ways in which `mkdir` ends.
pub mkdir_cases {ℓ} :
    (P : Option ℕ × Nodes → Type ℓ) (ns : Nodes) (p : ℕ) (name : List ℕ)
    → P (none, ns)
    → ((n : ℕ)
        → leb 32 (length (node_at ns p).children) ≡ false
        → find ns p name ≡ none
        → alloc_node ns ≡ some n
        → P (some n, link ns p n (new_dir (node_at ns n) p name)))
    → P (mkdir ns p name)
unfolding mkdir
mkdir_cases P ns p name refused made = elim (Bool-cases (leb 32 (length (node_at ns p).children))) [
  | inl e ↦ rw (e, mkdir) refused
  | inr e ↦ elim (Option-cases (find ns p name)) [
    | inr (c, f) ↦ rw (e, f, mkdir) refused
    | inl f ↦ elim (Option-cases (alloc_node ns)) [
      | inl g ↦ rw (e, f, g, mkdir) refused
      | inr (n, g) ↦ rw (e, f, g, mkdir) (made n e f g)
    ]
  ]
]

-- The ways in which `create` ends.
pub create_cases {ℓ} :
    (P : Option ℕ × Nodes → Type ℓ) (ns : Nodes) (p : ℕ) (name : List ℕ)
    → P (none, ns)
    → ((c : ℕ) → find ns p name ≡ some c → P (some c, ns))
    → ((n : ℕ)
        → leb 32 (length (node_at ns p).children) ≡ false
        → find ns p name ≡ none
        → alloc_node ns ≡ some n
        → P (some n, link ns p n (new_file (node_at ns n) p name)))
    → P (create ns p name)
unfolding create
create_cases P ns p name refused found made =
    elim (Bool-cases (leb 32 (length (node_at ns p).children))) [
      | inl e ↦ rw (e, create) refused
      | inr e ↦ elim (Option-cases (find ns p name)) [
        | inr (c, f) ↦ rw (e, f, create) (found c f)
        | inl f ↦ elim (Option-cases (alloc_node ns)) [
          | inl g ↦ rw (e, f, g, create) refused
          | inr (n, g) ↦ rw (e, f, g, create) (made n e f g)
        ]
      ]
    ]

module _ (ns : Nodes) (p : ℕ) (v : IsValid ns) (d : (node_at ns p).type ≡ dir) where
  pub new_dir-IsNew :
      (name : List ℕ) (n : ℕ)
      → leb 32 (length (node_at ns p).children) ≡ false
      → alloc_node ns ≡ some n
      → IsNew ns p n (new_dir (node_at ns n) p name) v
  new_dir-IsNew name n h e =
      unfold new_dir in
      record {
        in_dir = d;
        slot = (alloc_node-free ns n e).0;
        unused = (alloc_node-free ns n e).1;
        fits = ground arith;
        used = λ q. cc;
        empty = refl;
        up = refl;
      }

  pub new_file-IsNew :
      (name : List ℕ) (n : ℕ)
      → leb 32 (length (node_at ns p).children) ≡ false
      → alloc_node ns ≡ some n
      → IsNew ns p n (new_file (node_at ns n) p name) v
  new_file-IsNew name n h e =
      unfold new_file in
      record {
        in_dir = d;
        slot = (alloc_node-free ns n e).0;
        unused = (alloc_node-free ns n e).1;
        fits = ground arith;
        used = λ q. cc;
        empty = v.leaves n (λ q. cc (alloc_node-free ns n e).1);
        up = refl;
      }

  -- `mkdir` in a directory keeps the tree well formed, whether or not it makes one.
  pub mkdir-IsValid : (name : List ℕ) → IsValid (mkdir ns p name).1
  mkdir-IsValid name =
      mkdir_cases (λ r. IsValid r.1) ns p name v
        λ n h f g. link-IsValid ns p n (new_dir (node_at ns n) p name) v (new_dir-IsNew name n h g)

  -- ramfs_create in a directory keeps the tree well formed on every branch.
  pub create-IsValid : (name : List ℕ) → IsValid (create ns p name).1
  create-IsValid name =
      create_cases (λ r. IsValid r.1) ns p name v (λ c f. v)
        λ n h f g.
          link-IsValid ns p n (new_file (node_at ns n) p name) v (new_file-IsNew name n h g)
