-- ===== src/Fs/Ram/Dirs.antt =====
-- Directories of fs/ramfs.c stay directories in a tree that stays well formed.
use stellares_os.Common.{
  ℕ, ◌≡◌, refl, sym, ◌∙◌, ◌⊎◌, inl, inr, false, List, [], ◌∷◌, arith, zero, suc, length-set, set,
  subst, Has,
}
use stellares_os.Fs.Ram.{
  free, file, dir, NodeType, Nodes, node_at, is_file, mkdir, create, write, delete, new_dir,
  new_file,
}
use stellares_os.Fs.Ram.Invariant.{IsValid}
use stellares_os.Fs.Ram.Link.{
  mkdir_cases, create_cases, new_dir-IsNew, new_file-IsNew, node_at-link, mkdir-IsValid,
  create-IsValid,
}
use stellares_os.Fs.Ram.Contents.{write-IsValid, write_dir}
use stellares_os.Fs.Ram.Delete.{delete_cases, node_at-unlink, delete-IsValid}

-- A well-formed tree in which `p` is a directory.
pub record IsTree (ns : Nodes) (p : ℕ) : Type 0 where
  pub valid : IsValid ns
  pub in_dir : (node_at ns p).type ≡ dir

module _ (ns : Nodes) (p : ℕ) (h : IsTree ns p) (name : List ℕ) where
  pub mkdir-IsTree : IsTree (mkdir ns p name).1 p
  mkdir-IsTree = record {
    valid = mkdir-IsValid ns p h.valid h.in_dir name;
    in_dir =
        mkdir_cases (λ r. (node_at r.1 p).type ≡ dir) ns p name h.in_dir
          λ n f g e.
            let w = new_dir-IsNew ns p h.valid h.in_dir name n f e in
            ground
              (arith, h.in_dir, node_at-link ns p n (new_dir (node_at ns n) p name) h.valid w p);
  }

  pub create-IsTree : IsTree (create ns p name).1 p
  create-IsTree = record {
    valid = create-IsValid ns p h.valid h.in_dir name;
    in_dir =
        create_cases (λ r. (node_at r.1 p).type ≡ dir) ns p name h.in_dir (λ c f. h.in_dir)
          λ n f g e.
            let w = new_file-IsNew ns p h.valid h.in_dir name n f e in
            ground
              (arith, h.in_dir, node_at-link ns p n (new_file (node_at ns n) p name) h.valid w p);
  }

  pub delete-IsTree : IsTree (delete ns p name).1 p
  delete-IsTree = record {
    valid = delete-IsValid ns p name h.valid;
    in_dir =
        delete_cases (λ r. (node_at r.1 p).type ≡ dir) ns p name (λ e. h.in_dir) (λ c e f. h.in_dir)
          λ c e f. ground (arith, h.in_dir, node_at-unlink ns p c name h.valid e f p);
  }

is_file_or : (t : NodeType) → (t ≡ file) ⊎ (is_file t ≡ false)
is_file_or file = inl refl
is_file_or free = inr refl
is_file_or dir = inr refl

pub write-IsTree :
    (ns : Nodes) (p f : ℕ) (buf : List ℕ) (len : ℕ) → IsTree ns p → IsTree (write ns f buf len).1 p
unfolding write
write-IsTree ns p f buf len h = elim (is_file_or (node_at ns f).type) [
  | inl e ↦ record {
    valid = write-IsValid ns f buf len e h.valid;
    in_dir = write_dir ns f buf len e p h.in_dir;
  }
  | inr e ↦ rw (e, write) h
]

-- The node `f` under another name.
abbrev pub renamed : Nodes → ℕ → List ℕ → Nodes
renamed ns f name = set ns f (record (node_at ns f) { name = name })

renamed_at :
    (ns : Nodes) (f : ℕ) (name : List ℕ) (i : ℕ)
    → ((node_at (renamed ns f name) i).type ≡ (node_at ns i).type)
      × ((node_at (renamed ns f name) i).parent ≡ (node_at ns i).parent)
      × ((node_at (renamed ns f name) i).children ≡ (node_at ns i).children)
renamed_at [] f name i = (refl, refl, refl)
renamed_at (n ∷ ns) zero name zero = (refl, refl, refl)
renamed_at (n ∷ ns) zero name (suc i) = (refl, refl, refl)
renamed_at (n ∷ ns) (suc f) name zero = (refl, refl, refl)
renamed_at (n ∷ ns) (suc f) name (suc i) = renamed_at ns f name i

pub renamed-IsTree :
    (ns : Nodes) (p f : ℕ) (name : List ℕ) → IsTree ns p → IsTree (renamed ns f name) p
renamed-IsTree ns p f name h =
    let at = renamed_at ns f name in
    let v = h.valid in
    record {
      valid = record {
        slots = length-set ns f _ ∙ v.slots;
        root = (at 0).0 ∙ v.root;
        leaves = λ i e. (at i).2 ∙ v.leaves i (λ q. e ((at i).0 ∙ q));
        room = λ i. rw ((at i).2) (v.room i);
        children = λ i c k.
            let old = v.children i c (subst (Has c) ((at i).2) k) in
            record {
              inside = old.inside;
              not_root = old.not_root;
              in_use = λ q. old.in_use (sym ((at c).0) ∙ q);
              linked = (at c).1 ∙ old.linked;
            };
        distinct = λ i. rw ((at i).2) (v.distinct i);
      };
      in_dir = (at p).0 ∙ h.in_dir;
    }

-- A file that is made in one directory leaves every other one a directory.
pub create-IsTree_other :
    (ns : Nodes) (p q : ℕ) (name : List ℕ)
    → IsTree ns p
    → (node_at ns q).type ≡ dir
    → IsTree (create ns q name).1 p
create-IsTree_other ns p q name h e = record {
  valid = create-IsValid ns q h.valid e name;
  in_dir =
      create_cases (λ r. (node_at r.1 p).type ≡ dir) ns q name h.in_dir (λ c f. h.in_dir)
        λ n f g k.
          let w = new_file-IsNew ns q h.valid e name n f k in
          ground
            (arith, h.in_dir, node_at-link ns q n (new_file (node_at ns n) q name) h.valid w p);
}
