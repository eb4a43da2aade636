-- ===== src/Fs/Ram/Lookup.antt =====
-- What `ramfs_find` sees behind `ramfs_mkdir` and `ramfs_create` of fs/ramfs.c.
use stellares_os.Common.{
  ℕ, ◌<◌, ◌≤◌, ◌≡◌, ◌≢◌, refl, ap, sym, ◌∙◌, ◌⊎◌, inl, inr, Option, none, some, List, [], ◌∷◌, ◌++◌,
  arith, length, ◌==◌, if◌then◌else◌, take_all, str_eq_refl, str_eq, str_eq_ne, length-take, Has,
  Bool-cases, take, subst, ==_iff,
}
use stellares_os.Fs.Ram.{
  dir, Node, Nodes, node_at, find_child, find, link, new_dir, new_file, mkdir, create,
}
use stellares_os.Fs.Ram.Invariant.{IsValid}
use stellares_os.Fs.Ram.Link.{
  IsNew, node_at-link, mkdir_cases, create_cases, new_dir-IsNew, new_file-IsNew,
}

abbrev or_else : Option ℕ → Option ℕ → Option ℕ
or_else (some c) o = some c
or_else none o = o

module _ (ns : Nodes) (p n : ℕ) (m : Node) (v : IsValid ns) (w : IsNew ns p n m v) where
  -- A name in a table that does not hold the new node.
  find_child-link :
      (cs name : List ℕ) → ¬ Has n cs → find_child (link ns p n m) cs name ≡ find_child ns cs name
  unfolding find_child
  find_child-link [] name h = refl
  find_child-link (c ∷ cs) name h = ground (
    arith,
    (λ (e : n ≡ c). h (inl e)),
    node_at-link ns p n m v w c,
    find_child-link cs name (λ k. h (inr k)),
  )

  find_child-snoc :
      (cs name : List ℕ)
      → ¬ Has n cs
      → find_child (link ns p n m) (cs ++ (n ∷ [])) name
        ≡ or_else (find_child ns cs name) (if str_eq m.name name then some n else none)
  unfolding find_child
  find_child-snoc [] name h = ground (arith, node_at-link ns p n m v w n, w)
  find_child-snoc (c ∷ cs) name h = ground (
    arith,
    (λ (e : n ≡ c). h (inl e)),
    node_at-link ns p n m v w c,
    find_child-snoc cs name (λ k. h (inr k)),
  )

  not_listed : (q : ℕ) → ¬ Has n (node_at ns q).children
  not_listed q k = (v.children q n k).in_use w.unused

  -- In the directory itself the old entries come first, then the new one.
  find-link :
      (name : List ℕ)
      → find (link ns p n m) p name
        ≡ or_else (find ns p name) (if str_eq m.name name then some n else none)
  unfolding find
  find-link name = ground (
    arith,
    w.in_dir,
    node_at-link ns p n m v w p,
    find_child-snoc (node_at ns p).children name (not_listed p),
  )

  -- The other directories are as they were.
  find-link_ne :
      (q : ℕ) (name : List ℕ) → q ≢ p → q ≢ n → find (link ns p n m) q name ≡ find ns q name
  unfolding find
  find-link_ne q name h k = ground (
    arith,
    node_at-link ns p n m v w q,
    find_child-link (node_at ns q).children name (not_listed q),
  )

-- A name of up to 63 bytes is found where it was made, and no other lookup changes: `n` is the node
-- that was returned.
pub record IsBound (ns ns' : Nodes) (p : ℕ) (name : List ℕ) (n : ℕ) : Type 0 where
  pub bound : find ns' p name ≡ some n
  pub others :
      (q : ℕ) (other : List ℕ)
      → q ≢ n
      → (q ≢ p) ⊎ (other ≢ name)
      → find ns' q other ≡ find ns q other

link-IsBound :
    (ns : Nodes) (p n : ℕ) (m : Node) (v : IsValid ns) (w : IsNew ns p n m v) (name : List ℕ)
    → m.name ≡ name
    → find ns p name ≡ none
    → IsBound ns (link ns p n m) p name n
link-IsBound ns p n m v w name e f = record {
  bound = find-link ns p n m v w name ∙ rw (f, e, str_eq_refl name);
  others = λ q other h k. others q other h k;
}
  where
    elsewhere : (other : List ℕ) → other ≢ name → find (link ns p n m) p other ≡ find ns p other
    elsewhere other h =
        find-link ns p n m v w other
        ∙ rw (e, str_eq_ne name other (λ q. h (sym q))) (or_else-none (find ns p other))
      where
        or_else-none : (o : Option ℕ) → or_else o none ≡ o
        or_else-none none = refl
        or_else-none (some c) = refl

    others :
        (q : ℕ) (other : List ℕ)
        → q ≢ n
        → (q ≢ p) ⊎ (other ≢ name)
        → find (link ns p n m) q other ≡ find ns q other
    others q other h (inl k) = find-link_ne ns p n m v w q other k h
    others q other h (inr k) = elim (Bool-cases (q == p)) [
      | inl e ↦ rw ((==_iff q p).0 e) (elsewhere other k)
      | inr e ↦ find-link_ne ns p n m v w q other (λ r. ground (arith, r)) h
    ]

some_eq : (i n : ℕ) → Path (Option ℕ) (some i) (some n) → i ≡ n
some_eq i n e = cc

module _ (ns : Nodes) (p : ℕ) (name : List ℕ) (n : ℕ) (v : IsValid ns)
    (d : (node_at ns p).type ≡ dir) (short : length name ≤ 63) where
  -- A directory that `ramfs_mkdir` reports is found under its name, if the name fits its field; every
  -- other lookup in the directories that were there answers as before.
  pub mkdir-IsBound : (mkdir ns p name).0 ≡ some n → IsBound ns (mkdir ns p name).1 p name n
  unfolding new_dir
  mkdir-IsBound =
      mkdir_cases (λ r. r.0 ≡ some n → IsBound ns r.1 p name n) ns p name (λ e. cc)
        λ i h f g e.
          subst (IsBound ns (link ns p i (new_dir (node_at ns i) p name)) p name) (some_eq i n e) (
            link-IsBound ns p i (new_dir (node_at ns i) p name) v
              (new_dir-IsNew ns p v d name i h g) name (take_all name 63 short) f)

  -- So it is for `ramfs_create`, which also reports an entry that is there already.
  pub create-IsBound : (create ns p name).0 ≡ some n → IsBound ns (create ns p name).1 p name n
  unfolding new_file
  create-IsBound =
      create_cases (λ r. r.0 ≡ some n → IsBound ns r.1 p name n) ns p name (λ e. cc)
        (λ c f e. record { bound = f ∙ e; others = λ q other h k. refl })
        λ i h f g e.
          subst (IsBound ns (link ns p i (new_file (node_at ns i) p name)) p name) (some_eq i n e) (
            link-IsBound ns p i (new_file (node_at ns i) p name) v
              (new_file-IsNew ns p v d name i h g) name (take_all name 63 short) f)

-- A name of 64 bytes or more is cut off where it is stored, so it is not found again: creating it
-- twice makes two entries.
pub create_long :
    (ns : Nodes) (p : ℕ) (name : List ℕ) (n : ℕ)
    → IsValid ns
    → (node_at ns p).type ≡ dir
    → 63 < length name
    → find ns p name ≡ none
    → (create ns p name).0 ≡ some n
    → find (create ns p name).1 p name ≡ none
unfolding new_file
create_long ns p name n v d long missing =
    create_cases (λ r. r.0 ≡ some n → find r.1 p name ≡ none) ns p name (λ e. cc) (λ c f e. missing)
      λ i h f g e.
        find-link ns p i (new_file (node_at ns i) p name) v (new_file-IsNew ns p v d name i h g)
          name
        ∙ rw (f, str_eq_ne (take 63 name) name (cut_ne long))
  where
    cut_ne : 63 < length name → take 63 name ≢ name
    cut_ne h e = omega (arith, ap length e, length-take 63 name)
