-- ===== src/Fs/Ram/Faults.antt =====
-- Where fs/ramfs.c relies on its callers: `ramfs_create` does not look at the type of the parent.
use stellares_os.Common.{
  ℕ, ◌≡◌, ◌≢◌, ap, sym, ◌∙◌, none, some, List, [], ◌∷◌, ◌++◌, arith, length-set, set,
  get_or-set_self,
}
use stellares_os.Fs.Ram.{
  file, Node, Nodes, node_at, alloc_node, find, link, new_file, create, no_node,
}
use stellares_os.Fs.Ram.Invariant.{IsValid, node_at-set, in_table, alloc_node-free}

module _ (ns : Nodes) (f i : ℕ) (name : List ℕ) (v : IsValid ns) (is_f : (node_at ns f).type ≡ file)
    (a : alloc_node ns ≡ some i) where
  childless : (node_at ns f).children ≡ []
  childless = v.leaves f (λ e. let d = sym is_f ∙ e in cc)

  find-none : find ns f name ≡ none
  unfolding find
  find-none = ground (arith, is_f)

  created : (create ns f name).1 ≡ link ns f i (new_file (node_at ns i) f name)
  unfolding create
  created = rw (childless, find-none, a, create)

  listed :
      (m : Node)
      → ((node_at (link ns f i m) f).type ≡ file) × ((node_at (link ns f i m) f).children ≡ i ∷ [])
  unfolding link
  listed m =
      let (inside, unused) = alloc_node-free ns i a in
      let f_in = in_table ns f (λ e. let d = sym is_f ∙ e in cc) in
      let apart : i ≢ f = λ e. let d = sym unused ∙ ap (λ k. (node_at ns k).type) e ∙ is_f in cc in
      let old : node_at (set ns i m) f ≡ node_at ns f =
        node_at-set ns i f m inside ∙ ground (arith, apart) in
      let p = node_at (set ns i m) f in
      let self =
        get_or-set_self (set ns i m) f (record p { children = p.children ++ (i ∷ []) }) no_node
          (omega (arith, f_in, length-set ns i m)) in
      (
        ap (λ n. n.type) self ∙ ap (λ n. n.type) old ∙ is_f,
        ap (λ n. n.children) self
            ∙ ap (λ n. n.children ++ (i ∷ [])) old
            ∙ ap (λ c. c ++ (i ∷ [])) childless,
      )

-- A file that is created below a file, where the table has room for it, breaks the tree: the parent is a
-- file that lists a child.
pub create_in_file :
    (ns : Nodes) (f i : ℕ) (name : List ℕ)
    → IsValid ns
    → (node_at ns f).type ≡ file
    → alloc_node ns ≡ some i
    → ¬ IsValid (create ns f name).1
create_in_file ns f i name v is_f a w =
    let ns' = (create ns f name).1 in
    let l = listed ns f i name v is_f a (new_file (node_at ns i) f name) in
    let same = created ns f i name v is_f a in
    let type : (node_at ns' f).type ≡ file = ap (λ t. (node_at t f).type) same ∙ l.0 in
    let kids : (node_at ns' f).children ≡ i ∷ [] = ap (λ t. (node_at t f).children) same ∙ l.1 in
    let none_left = w.leaves f (λ e. let d = sym type ∙ e in cc) in
    let wrong : i ∷ [] ≡ [] = sym kids ∙ none_left in cc
