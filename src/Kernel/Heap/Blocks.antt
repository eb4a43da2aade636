-- ===== src/Kernel/Heap/Blocks.antt =====
-- The list of blocks of kernel/heap.c: what a search that takes a block and a release do to the blocks
-- in use.
use stellares_os.Common.{
  ℕ, ◌+◌, ◌-◌, ◌^◌, ◌≤◌, ◌<◌, ◌≡◌, ◌≢◌, refl, ap, sym, inl, inr, Bool, true, false, ◌&&◌, Option,
  none, some, List, [], ◌∷◌, arith, leb, ◌==◌, if◌then◌else◌, Bool-cases, subst, leb→le, ==_iff,
  ne-of-false,
}
use stellares_os.Kernel.Heap.{
  Block, Found, carve, carved_size, keep_before, find_block, merge, free_behind, free_from,
  free_block, size_at, size_or,
}

-- The bytes from a header to the end of the last block.
unfoldable pub span : List Block → ℕ
span [] = 0
span (b ∷ bs) = 16 + b.size + span bs

-- The bytes of the blocks in use.
unfoldable pub in_use : List Block → ℕ
in_use [] = 0
in_use (b ∷ bs) = (if b.is_free then 0 else b.size) + in_use bs

-- No pointer lies before the first block's.
size_at-below : (p a : ℕ) (bs : List Block) → p < a + 16 → size_at p a bs ≡ none
unfolding size_at
size_at-below p a [] h = refl
size_at-below p a (b ∷ bs) h = ground (arith, size_at-below p (a + 16 + b.size) bs)

-- A block in use lies within the span.
pub size_at-inside :
    (p a n : ℕ) (bs : List Block) → size_at p a bs ≡ some n → (a + 16 ≤ p) × (p + n ≤ a + span bs)
unfolding size_at span
size_at-inside p a n [] h = cc
size_at-inside p a n (b ∷ bs) h = ground (arith, size_at-inside p (a + 16 + b.size) n bs)

-- Two blocks in use do not overlap: the header and the bytes of the second lie behind the first.
pub size_at-apart :
    (p q n m a : ℕ) (bs : List Block)
    → size_at p a bs ≡ some n
    → size_at q a bs ≡ some m
    → p < q
    → p + n + 16 ≤ q
unfolding size_at
size_at-apart p q n m a [] h k l = cc
size_at-apart p q n m a (b ∷ bs) h k l = ground (
  arith,
  size_at-apart p q n m (a + 16 + b.size) bs,
  size_at-inside p (a + 16 + b.size) n bs,
  size_at-inside q (a + 16 + b.size) m bs,
)

-- What a search that finds a block has done.
pub record IsCarved (sz a : ℕ) (bs : List Block) (f : Found) : Type 0 where
  pub enough : sz ≤ f.size
  pub beyond : a + 16 ≤ f.address
  pub unused : size_at f.address a bs ≡ none
  pub kept : span f.blocks ≡ span bs
  pub grown : in_use f.blocks ≡ in_use bs + f.size
  pub others :
      (q : ℕ) → size_at q a f.blocks ≡ (if f.address == q then some f.size else size_at q a bs)

carve-IsCarved :
    (sz a : ℕ) (c : Block) (bs : List Block)
    → sz + 48 < 2 ^ 32
    → c.is_free ≡ true
    → sz ≤ c.size
    → IsCarved sz a
        (c ∷ bs)
        (record { address = a + 16; size = carved_size c sz; blocks = carve c sz bs })
unfolding carve carved_size size_at span in_use
carve-IsCarved sz a c bs h free fits = record {
  enough = ground arith;
  beyond = omega arith;
  unused = ground arith;
  kept = ground arith;
  grown = ground arith;
  others = λ q. ground (
    arith,
    size_at-below q (a + 16 + c.size) bs,
    ap (λ k. size_at q k bs) (same_end a sz c.size),
  );
}
  where
    same_end :
        (x s n : ℕ)
        → x + 16 + s + 16 + (n - s - 16)
          ≡ (if leb (s + 48) n then x + 16 + n else x + 16 + s + 16 + (n - s - 16))
    same_end x s n = ground arith

IsCarved-skip :
    (sz a : ℕ) (c : Block) (bs : List Block) (f : Found)
    → IsCarved sz (a + 16 + c.size) bs f
    → IsCarved sz a (c ∷ bs) (record f { blocks = c ∷ f.blocks })
unfolding size_at span in_use
IsCarved-skip sz a c bs f w = record {
  enough = w.enough;
  beyond = omega (arith, w.beyond);
  unused = ground (arith, w.unused, w.beyond);
  kept = omega (arith, w.kept);
  grown = omega (arith, w.grown);
  others = λ q. ground (arith, w.beyond, w.others q);
}

pub find_block-IsCarved :
    (sz a : ℕ) (bs : List Block) (f : Found)
    → sz + 48 < 2 ^ 32
    → find_block sz a bs ≡ some f
    → IsCarved sz a bs f
unfolding find_block
find_block-IsCarved sz a [] f h e = cc
find_block-IsCarved sz a (c ∷ bs) f h e = elim (Bool-cases (c.is_free && leb sz c.size)) [
  | inl t ↦
      let (free, fits) = both c.is_free (leb sz c.size) t in
      subst (IsCarved sz a (c ∷ bs)) (some_found _ f (rw t at e))
        (carve-IsCarved sz a c bs h free (leb→le sz c.size fits))
  | inr t ↦
      let (g, eg, same) = skipped (find_block sz (a + 16 + c.size) bs) c f (rw t at e) in
      subst (IsCarved sz a (c ∷ bs)) same
        (IsCarved-skip sz a c bs g (find_block-IsCarved sz (a + 16 + c.size) bs g h eg))
]
  where
    both : (x y : Bool) → (x && y) ≡ true → (x ≡ true) × (y ≡ true)
    both x y k = (ground arith, ground arith)

    some_found : (g k : Found) → Path (Option Found) (some g) (some k) → g ≡ k
    some_found g k r = cc

    skipped :
        (o : Option Found) (b : Block) (k : Found)
        → keep_before b o ≡ some k
        → (g : Found) × (o ≡ some g) × (record g { blocks = b ∷ g.blocks } ≡ k)
    skipped none b k r = cc
    skipped (some g) b k r = (g, refl, cc)

-- What `kfree` keeps and clears.
pub record IsFreed (p a : ℕ) (bs cs : List Block) : Type 0 where
  pub kept : span cs ≡ span bs
  pub shrunk : in_use cs + size_or (size_at p a bs) ≡ in_use bs
  pub others : (q : ℕ) → size_at q a cs ≡ (if p == q then none else size_at q a bs)

-- A merge changes no pointer in use.
record IsMerged (a : ℕ) (bs cs : List Block) : Type 0 where
  pub kept : span cs ≡ span bs
  pub same : in_use cs ≡ in_use bs
  pub others : (q : ℕ) → size_at q a cs ≡ size_at q a bs

merge-IsMerged :
    (a : ℕ) (b : Block) (bs : List Block) → b.is_free ≡ true → IsMerged a (b ∷ bs) (merge b bs)
unfolding merge size_at span in_use
merge-IsMerged a b [] h = record { kept = refl; same = refl; others = λ q. refl }
merge-IsMerged a b (n ∷ bs) h = record {
  kept = ground arith;
  same = ground arith;
  others = λ q.
      let end : a + 16 + (b.size + (16 + n.size)) ≡ a + 16 + b.size + 16 + n.size = omega arith in
      ground
        (arith, ap (λ k. size_at q k bs) end, size_at-below q (a + 16 + b.size + 16 + n.size) bs);
}

IsFreed-first :
    (p a : ℕ) (b : Block) (bs : List Block)
    → a + 16 ≡ p
    → b.is_free ≡ false
    → IsFreed p a (b ∷ bs) (merge (record b { is_free = true }) bs)
unfolding size_at span in_use
IsFreed-first p a b bs e h =
    let m = merge-IsMerged a (record b { is_free = true }) bs refl in
    record {
      kept = ground (arith, m.kept);
      shrunk = ground (arith, m.same);
      others = λ q. ground (arith, m.others q);
    }

free_behind-IsFreed :
    (p a : ℕ) (prev b : Block) (bs : List Block)
    → a + 16 + prev.size + 16 ≡ p
    → IsFreed p a (prev ∷ b ∷ bs) (free_behind prev b bs)
unfolding free_behind size_at span in_use
free_behind-IsFreed p a prev b bs e = elim (Bool-cases b.is_free) [
  | inl t ↦ record { kept = ground arith; shrunk = ground arith; others = λ q. ground arith }
  | inr t ↦
      let m = merge-IsMerged a prev (record b { is_free = true } ∷ bs) in
      let n = IsFreed-first p (a + 16 + prev.size) b bs e t in
      record {
        kept = ground (arith, m, n.kept);
        shrunk = ground (arith, m, n.shrunk);
        others = λ q. elim (Bool-cases prev.is_free) [
          | inl u ↦ ground (arith, (m u).others q)
          | inr u ↦ ground (arith, n.others q)
        ];
      }
]

free_from-IsFreed :
    (p a : ℕ) (prev : Block) (bs : List Block)
    → a + 16 ≢ p
    → IsFreed p a (prev ∷ bs) (free_from p (a + 16 + prev.size) prev bs)
unfolding free_from size_at span in_use
free_from-IsFreed p a prev [] ne = record {
  kept = refl;
  shrunk = ground arith;
  others = λ q. ground arith;
}
free_from-IsFreed p a prev (b ∷ bs) ne = elim (Bool-cases (a + 16 + prev.size + 16 == p)) [
  | inl e ↦ rw e (free_behind-IsFreed p a prev b bs ((==_iff _ p).0 e))
  | inr e ↦
      let w = free_from-IsFreed p (a + 16 + prev.size) b bs (ne-of-false _ p e) in
      rw e record {
        kept = omega (arith, w.kept);
        shrunk = ground (arith, w.shrunk);
        others = λ q. ground (arith, w.others q);
      }
]

pub free_block-IsFreed : (p a : ℕ) (bs : List Block) → IsFreed p a bs (free_block p a bs)
unfolding free_block size_at in_use
free_block-IsFreed p a [] = record { kept = refl; shrunk = omega arith; others = λ q. ground arith }
free_block-IsFreed p a (b ∷ bs) = elim (Bool-cases (a + 16 == p)) [
  | inl e ↦ elim (Bool-cases b.is_free) [
    | inl t ↦ rw e (
        subst (λ c. IsFreed p a (b ∷ bs) (cut c)) (sym t)
          (record { kept = refl; shrunk = ground arith; others = λ q. ground arith }))
    | inr t ↦ rw e (
        subst (λ c. IsFreed p a (b ∷ bs) (cut c)) (sym t)
          (IsFreed-first p a b bs ((==_iff _ p).0 e) t))
  ]
  | inr e ↦ rw e (free_from-IsFreed p a b bs (ne-of-false _ p e))
]
  where
    cut : Bool → List Block
    cut c = if c then b ∷ bs else merge (record b { is_free = true }) bs
