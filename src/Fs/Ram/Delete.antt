-- ===== src/Fs/Ram/Delete.antt =====
-- `ramfs_delete` of fs/ramfs.c.
use stellares_os.Common.{
  ℕ, ◌≤◌, ◌≡◌, ◌≢◌, refl, ap, ◌∙◌, ◌⊎◌, inl, inr, true, false, none, some, List, [], ◌∷◌, arith,
  length, length-set, set, ◌==◌, if◌then◌else◌, Bool-cases, Option-cases, subst, Has, IsDistinct,
  str_eq, ==_iff,
}
use stellares_os.Fs.Ram.{
  NodeType, free, file, dir, Nodes, node_at, find_child, remove_named, busy, unlink, delete,
  Deleted, done, missing, not_empty,
}
use stellares_os.Fs.Ram.Invariant.{IsValid, IsChild, in_table, node_at-set, find_child-Has}

Has-remove_named :
    (ns : Nodes) (cs name : List ℕ) (x : ℕ) → Has x (remove_named ns cs name) → Has x cs
unfolding remove_named
Has-remove_named ns [] name x h = h
Has-remove_named ns (c ∷ cs) name x h = elim (Bool-cases (str_eq (node_at ns c).name name)) [
  | inl e ↦ inr (subst (Has x) (rw (e, remove_named)) h)
  | inr e ↦ elim (subst (Has x) {y = c ∷ remove_named ns cs name} (rw (e, remove_named)) h) [
    | inl k ↦ inl k
    | inr k ↦ inr (Has-remove_named ns cs name x k)
  ]
]

IsDistinct-remove_named :
    (ns : Nodes) (cs name : List ℕ) → IsDistinct cs → IsDistinct (remove_named ns cs name)
unfolding remove_named
IsDistinct-remove_named ns [] name d = d
IsDistinct-remove_named ns (c ∷ cs) name d = elim (Bool-cases (str_eq (node_at ns c).name name)) [
  | inl e ↦ rw e d.1
  | inr e ↦
      rw e ((λ k. d.0 (Has-remove_named ns cs name c k)), IsDistinct-remove_named ns cs name d.1)
]

length-remove_named : (ns : Nodes) (cs name : List ℕ) → length (remove_named ns cs name) ≤ length cs
unfolding remove_named
length-remove_named ns [] name = omega arith
length-remove_named ns (c ∷ cs) name = ground (arith, length-remove_named ns cs name)

-- The entry that was found is the one that goes.
not-Has-remove_named :
    (ns : Nodes) (cs name : List ℕ) (c : ℕ)
    → IsDistinct cs
    → find_child ns cs name ≡ some c
    → ¬ Has c (remove_named ns cs name)
unfolding remove_named find_child
not-Has-remove_named ns [] name c d e h = cc
not-Has-remove_named ns (x ∷ cs) name c d e h =
    elim (Bool-cases (str_eq (node_at ns x).name name)) [
      | inl t ↦
          let same : x ≡ c = ground arith in
          d.0 (subst (Has x) {y = cs} (rw (t, remove_named)) (rw (← same) at h))
      | inr t ↦ elim (subst (Has c) {y = x ∷ remove_named ns cs name} (rw (t, remove_named)) h) [
        | inl k ↦ d.0 (rw (← k) (find_child-Has ns cs name c (rw (t, find_child) at e)).0)
        | inr k ↦ not-Has-remove_named ns cs name c d.1 (rw (t, find_child) at e) k
      ]
    ]

-- The ways in which `delete` ends.
pub delete_cases {ℓ} :
    (P : Deleted × Nodes → Type ℓ) (ns : Nodes) (p : ℕ) (name : List ℕ)
    → (find_child ns (node_at ns p).children name ≡ none → P (missing, ns))
    → ((c : ℕ)
        → find_child ns (node_at ns p).children name ≡ some c
        → busy (node_at ns c) ≡ true
        → P (not_empty, ns))
    → ((c : ℕ)
        → find_child ns (node_at ns p).children name ≡ some c
        → busy (node_at ns c) ≡ false
        → P (done, unlink ns p c name))
    → P (delete ns p name)
unfolding delete
delete_cases P ns p name absent full removed =
    elim (Option-cases (find_child ns (node_at ns p).children name)) [
      | inl e ↦ rw (e, delete) (absent e)
      | inr (c, e) ↦ elim (Bool-cases (busy (node_at ns c))) [
        | inl b ↦ rw (e, b, delete) (full c e b)
        | inr b ↦ rw (e, b, delete) (removed c e b)
      ]
    ]

dir_or_not : (t : NodeType) → (t ≡ dir) ⊎ (t ≢ dir)
dir_or_not dir = inl refl
dir_or_not free = inr (λ e. cc)
dir_or_not file = inr (λ e. cc)

module _ (ns : Nodes) (p c : ℕ) (name : List ℕ) (v : IsValid ns) where
  module _ (e : find_child ns (node_at ns p).children name ≡ some c)
      (b : busy (node_at ns c) ≡ false) where
    listed : Has c (node_at ns p).children
    listed = (find_child-Has ns (node_at ns p).children name c e).0

    child : IsChild ns p c
    child = v.children p c listed

    no_children : (node_at ns c).children ≡ []
    unfolding busy
    no_children = ground (arith, v.leaves c)

    p_dir : (node_at ns p).type ≡ dir
    p_dir = elim (dir_or_not (node_at ns p).type) [
      | inl q ↦ q
      | inr q ↦
          let none_left : Has c [] = subst (Has c) {y = []} (v.leaves p q) listed in
          absurd none_left
    ]

    apart : p ≢ c
    apart q = subst (Has c) (ap (λ i. (node_at ns i).children) q ∙ no_children) listed

    pub node_at-unlink :
        (j : ℕ)
        → node_at (unlink ns p c name) j ≡ (
            if p == j
            then record (node_at ns p) { children = remove_named ns (node_at ns p).children name }
            else if c == j
            then record (node_at ns c) { type = free }
            else node_at ns j)
    unfolding unlink
    node_at-unlink j =
        let gone = record (node_at ns c) { type = free } in
        let ns' = set ns c gone in
        ground (
          arith,
          apart,
          in_table ns c child.in_use,
          in_table ns p (λ q. cc p_dir),
          length-set ns c gone,
          node_at-set ns c p gone,
          node_at-set ns c j gone,
          node_at-set ns' p j
              (record (node_at ns' p) { children = remove_named ns (node_at ns' p).children name }),
        )

    kids :
        (j : ℕ)
        → (node_at (unlink ns p c name) j).children ≡ (
            if p == j
            then remove_named ns (node_at ns p).children name
            else (node_at ns j).children)
    kids j = ground (arith, node_at-unlink j, (λ (q : c ≡ j). ap (λ i. (node_at ns i).children) q))

    kept : (i x : ℕ) → x ≢ c → IsChild ns i x → IsChild (unlink ns p c name) i x
    kept i x ne k =
        let same_p = λ (q : p ≡ x). ap (λ j. node_at ns j) q in
        record {
          inside = k.inside;
          not_root = k.not_root;
          in_use = ground (arith, node_at-unlink x, ne, k.in_use, same_p);
          linked = ground (arith, node_at-unlink x, ne, k.linked, same_p);
        }

    -- An entry of another directory is not the one that goes.
    elsewhere : (i x : ℕ) → p ≢ i → Has x (node_at ns i).children → x ≢ c
    elsewhere i x ne h q =
        let k = v.children i x h in
        ground (arith, ne, k.linked, child.linked, ap (λ j. (node_at ns j).parent) q)

    children' :
        (i x : ℕ)
        → Has x (node_at (unlink ns p c name) i).children
        → IsChild (unlink ns p c name) i x
    children' i x h = elim (Bool-cases (p == i)) [
      | inl t ↦
          let left : Has x (remove_named ns (node_at ns p).children name) =
            subst (Has x) (kids i ∙ rw t) h in
          rw (← (==_iff p i).0 t) (
            kept p x
              (λ q.
                not-Has-remove_named ns (node_at ns p).children name c (v.distinct p) e
                  (rw (← q) left))
              (v.children p x (Has-remove_named ns (node_at ns p).children name x left)))
      | inr t ↦
          let old : Has x (node_at ns i).children = subst (Has x) (kids i ∙ rw t) h in
          kept i x (elsewhere i x (λ q. ground (arith, q)) old) (v.children i x old)
    ]

    distinct' : (i : ℕ) → IsDistinct (node_at (unlink ns p c name) i).children
    distinct' i = rw (kids i) (elim (Bool-cases (p == i)) [
      | inl t ↦ rw t (IsDistinct-remove_named ns (node_at ns p).children name (v.distinct p))
      | inr t ↦ rw t (v.distinct i)
    ])

    leaves' :
        (i : ℕ)
        → (node_at (unlink ns p c name) i).type ≢ dir
        → (node_at (unlink ns p c name) i).children ≡ []
    leaves' i h = ground (
      arith,
      kids i,
      node_at-unlink i,
      h,
      v.leaves i,
      v.leaves p,
      no_children,
      p_dir,
      (λ (q : c ≡ i). ap (λ j. (node_at ns j).children) q),
    )

    unlink-IsValid : IsValid (unlink ns p c name)
    unlink-IsValid = record {
      slots = length-unlink;
      root = ground (
        arith,
        node_at-unlink 0,
        v.root,
        child.not_root,
        (λ (q : p ≡ 0). ap (λ j. (node_at ns j).type) q),
      );
      leaves = leaves';
      room = λ i.
          ground (
            arith,
            kids i,
            v.room i,
            v.room p,
            length-remove_named ns (node_at ns p).children name,
          );
      children = children';
      distinct = distinct';
    }
      where
        length-unlink : length (unlink ns p c name) ≡ 128
        length-unlink =
            let gone = record (node_at ns c) { type = free } in
            let ns' = set ns c gone in
            unfold unlink in
            omega (
              arith,
              v.slots,
              length-set ns c gone,
              length-set ns' p (record (node_at ns' p) {
                children = remove_named ns (node_at ns' p).children name;
              }),
            )

-- Deleting keeps the tree well formed, whatever its result.
pub delete-IsValid :
    (ns : Nodes) (p : ℕ) (name : List ℕ) → IsValid ns → IsValid (delete ns p name).1
delete-IsValid ns p name v =
    delete_cases (λ r. IsValid r.1) ns p name (λ e. v) (λ c e b. v)
      λ c e b. unlink-IsValid ns p c name v e b

-- What a deletion that reports success did: the entry that a search by this name finds first is free,
-- it had no children, and no directory lists it any more.
pub record IsGone (ns ns' : Nodes) (p : ℕ) (name : List ℕ) (c : ℕ) : Type 0 where
  pub found : find_child ns (node_at ns p).children name ≡ some c
  pub childless : (node_at ns c).children ≡ []
  pub freed : (node_at ns' c).type ≡ free
  pub unlisted : (i : ℕ) → ¬ Has c (node_at ns' i).children

unlink-IsGone :
    (ns : Nodes) (p c : ℕ) (name : List ℕ) (v : IsValid ns)
    → find_child ns (node_at ns p).children name ≡ some c
    → busy (node_at ns c) ≡ false
    → IsGone ns (unlink ns p c name) p name c
unlink-IsGone ns p c name v e b = record {
  found = e;
  childless = no_children ns p c name v e b;
  freed = ground (arith, node_at-unlink ns p c name v e b c, apart ns p c name v e b);
  unlisted = λ i h.
      (children' ns p c name v e b i c h).in_use
        (ground (arith, node_at-unlink ns p c name v e b c, apart ns p c name v e b));
}

-- In a well-formed tree, when `ramfs_delete` reports success, the entry that was found under the name had no children,
-- is free, and no directory lists it; otherwise the tree is as it was.
pub delete_lem :
    (ns : Nodes) (p : ℕ) (name : List ℕ)
    → IsValid ns
    → ((delete ns p name).0 ≡ done → (c : ℕ) × IsGone ns (delete ns p name).1 p name c)
      × ((delete ns p name).0 ≢ done → (delete ns p name).1 ≡ ns)
delete_lem ns p name v =
    delete_cases (λ r. (r.0 ≡ done → (c : ℕ) × IsGone ns r.1 p name c) × (r.0 ≢ done → r.1 ≡ ns)) ns
      p name (λ e. ((λ q. cc), (λ q. refl))) (λ c e b. ((λ q. cc), (λ q. refl)))
      λ c e b. ((λ q. (c, unlink-IsGone ns p c name v e b)), (λ q. absurd (q refl)))
