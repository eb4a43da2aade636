-- ===== src/Fs/Disk/Keep.antt =====
-- Files of fs/diskfs.c that a write of another file leaves alone.
use stellares_os.Common.{
  ℕ, zero, suc, ◌+◌, ◌%◌, ◌^◌, ◌<◌, ◌≤◌, ◌≡◌, ◌≢◌, refl, ap, ap₂, sym, ◌∙◌, inl, inr, Bool, true,
  false, Option, none, some, List, [], ◌∷◌, arith, set, if◌then◌else◌, Bool-cases, Option-cases,
  replicate, subst, str_eq_sound,
}
use stellares_os.Libc.Str.{c_str, memcpy}
use stellares_os.Fs.Device.{BlockDevice, IsReliable}
use stellares_os.Fs.Disk.Table.{
  Inode, inode_at, in_use, is_named, find_inode, find_inode_from, alloc_inode, alloc_slot,
  new_inode, data_lba, clipped, read_count, no_inode, alloc_inode_from, mark_slots, first_unmarked,
}
use stellares_os.Fs.Disk.Table.Search.{IsFirst, find_inode-some, first-find_inode, alloc_inode-some}
use stellares_os.Fs.Disk.{State, claim, store, store_claimed, write_file, read_file, exists}
use stellares_os.Fs.Disk.Persist.{inode_at-set, clipped_lem}
use stellares_os.Fs.Disk.Files.{
  IsFileName, IsValid, IsClaims, IsClaimed, claim-IsClaims, claim_cases, stored, store_lem,
  stored-IsSaved, new_inode-named,
}
use stellares_os.Fs.Disk.Restart.{named-in_use}

-- A field holds one name.
named-eq : (x y : List ℕ) (n : Inode) → is_named x n ≡ true → is_named y n ≡ true → x ≡ y
named-eq x y n h k = ground (arith, str_eq_sound (c_str n.name) x, str_eq_sound (c_str n.name) y)

named_ne : (x y : List ℕ) (n : Inode) → x ≢ y → is_named y n ≡ true → is_named x n ≡ false
named_ne x y n ne h = elim (Bool-cases (is_named x n)) [
  | inl e ↦ absurd (ne (named-eq x y n e h))
  | inr e ↦ e
]

unused_unnamed : (x : List ℕ) (n : Inode) → in_use n ≡ false → is_named x n ≡ false
unused_unnamed x n h = elim (Bool-cases (is_named x n)) [
  | inl e ↦ let u = named-in_use x n e in cc
  | inr e ↦ e
]

find_inode_from-set :
    (name : List ℕ) (is : List Inode) (i k : ℕ) (n : Inode)
    → is_named name n ≡ is_named name (inode_at is i)
    → find_inode_from name (set is i n) k ≡ find_inode_from name is k
unfolding find_inode_from
find_inode_from-set name [] i k n h = refl
find_inode_from-set name (x ∷ is) zero k n h = rw h
find_inode_from-set name (x ∷ is) (suc i) k n h = rw (find_inode_from-set name is i (k + 1) n h)

-- An entry that answers to a name as the old one did does not change the search for that name.
find_inode-set :
    (name : List ℕ) (is : List Inode) (i : ℕ) (n : Inode)
    → is_named name n ≡ is_named name (inode_at is i)
    → find_inode name (set is i n) ≡ find_inode name is
unfolding find_inode
find_inode-set name is i n h = find_inode_from-set name is i 0 n h

sized-named :
    (name : List ℕ) (n : Inode) (size : ℕ)
    → is_named name (record n { size = size }) ≡ is_named name n
sized-named name n size = refl

module _ (b : BlockDevice) where
  -- What a reader of a file looks at is the same in two states.
  record IsSame (name : List ℕ) (s t : State b) : Type 0 where
    pub ready : t.fs_ready ≡ s.fs_ready
    pub found : find_inode name t.inodes ≡ find_inode name s.inodes
    pub entry :
        (i : ℕ)
        → is_named name (inode_at s.inodes i) ≡ true
        → inode_at t.inodes i ≡ inode_at s.inodes i
    pub block :
        (i : ℕ)
        → is_named name (inode_at s.inodes i) ≡ true
        → b.read t.disk (data_lba (inode_at s.inodes i).slot) 8
          ≡ b.read s.disk (data_lba (inode_at s.inodes i).slot) 8

  same : (name : List ℕ) (s : State b) → IsSame name s s
  same name s = record { ready = refl; found = refl; entry = λ i h. refl; block = λ i h. refl }

  read_file-same :
      (name buf : List ℕ) (k : ℕ) (s t : State b)
      → IsSame name s t
      → read_file b name buf k t ≡ read_file b name buf k s
  unfolding read_file
  read_file-same name buf k s t h = elim (Option-cases (find_inode name s.inodes)) [
    | inl e ↦ rw (h.ready, h.found, e)
    | inr (i, e) ↦
        let named = (find_inode-some name s.inodes i e).named in
        rw (h.ready, h.found, e)
          (ap₂
            (λ n o.
              if s.fs_ready
              then elim o [
                | none ↦ (none, buf)
                | some tmp ↦ let m = read_count n k in (some m, memcpy buf tmp m)
              ]
              else (none, buf))
            (h.entry i named)
            (ap (λ n. b.read t.disk (data_lba n.slot) 8) (h.entry i named) ∙ h.block i named))
  ]

  pub first-exists :
      (name : List ℕ) (i : ℕ) (s : State b) → IsFirst name s.inodes i → exists b name s ≡ true
  unfolding exists
  first-exists name i s f = rw (first-find_inode name s.inodes i f, exists)

  claim-IsSame :
      (name other : List ℕ) (s : State b)
      → name ≢ other
      → IsFileName other
      → IsSame name s (claim b other s).1
  claim-IsSame name other s ne f =
      claim_cases b (λ r. IsSame name s r.1) other s (same name s) (λ i e. same name s)
        λ i slot e a g.
          let (inside, unused) = alloc_inode-some s.inodes i a in
          let free = unused_unnamed name (inode_at s.inodes i) unused in
          let n = new_inode other slot in
          let new = named_ne name other n ne (new_inode-named other slot f) in
          record {
            ready = refl;
            found = find_inode-set name s.inodes i n (new ∙ sym free);
            entry = λ j h. ground (arith, inside, inode_at-set s.inodes i j n, free, h);
            block = λ j h. refl;
          }

  module _ (works : IsReliable b) where
    store-IsSame :
        (name other bytes : List ℕ) (size j : ℕ) (s : State b)
        → name ≢ other
        → IsClaimed b other j s
        → size ≤ 4096
        → IsSame name s (store b j bytes size s).1
    unfolding stored
    store-IsSame name other bytes size j s ne c most =
        let n = inode_at s.inodes j in
        let n' : Inode = record n { size = size } in
        let not_named = named_ne name other n ne c.first.named in
        let hj : j < 32 = omega (arith, c.first.inside, c.valid.table.count) in
        let used = named-in_use other n c.first.named in
        let r = stored-IsSaved b works j bytes size s c.valid hj used (omega arith) in
        let apart : (i : ℕ) → is_named name (inode_at s.inodes i) ≡ true → i ≢ j =
          λ i h e. ground (arith, h, not_named, ap (λ k. is_named name (inode_at s.inodes k)) e) in
        rw (store_lem b works j bytes size s) (record {
          ready = refl;
          found = find_inode-set name s.inodes j n' (sized-named name n size);
          entry = λ i h. ground (arith, c.first.inside, inode_at-set s.inodes j i n', apart i h);
          block = λ i h.
              let u = named-in_use name (inode_at s.inodes i) h in
              r.0.others (inode_at s.inodes i).slot (c.valid.table.slots i u)
                (c.valid.table.apart i j u used (apart i h));
        })

    IsSame-after :
        (name : List ℕ) (s t u : State b) → IsSame name s t → IsSame name t u → IsSame name s u
    IsSame-after name s t u h k = record {
      ready = k.ready ∙ h.ready;
      found = k.found ∙ h.found;
      entry = λ i e. k.entry i (ap (is_named name) (h.entry i e) ∙ e) ∙ h.entry i e;
      block = λ i e.
          ap (λ n. b.read u.disk (data_lba n.slot) 8) (sym (h.entry i e))
          ∙ k.block i (ap (is_named name) (h.entry i e) ∙ e)
          ∙ ap (λ n. b.read t.disk (data_lba n.slot) 8) (h.entry i e)
          ∙ h.block i e;
    }

    store_claimed-IsSame :
        (name other bytes : List ℕ) (size : ℕ) (s : State b) (r : Option ℕ × State b)
        → name ≢ other
        → IsClaims b other r
        → IsSame name s r.1
        → size ≤ 4096
        → IsSame name s (store_claimed b bytes size r).1
    unfolding store_claimed
    store_claimed-IsSame name other bytes size s (none, t) ne c h most = h
    store_claimed-IsSame name other bytes size s (some j, t) ne c h most =
        IsSame-after name s t (store b j bytes size t).1 h
          (store-IsSame name other bytes size j t ne c most)

    write_file-IsSame :
        (name other bytes : List ℕ) (size : ℕ) (s : State b)
        → name ≢ other
        → IsFileName other
        → IsValid b s
        → IsSame name s (write_file b other bytes size s).1
    unfolding write_file
    write_file-IsSame name other bytes size s ne f v =
        either s.fs_ready (store_claimed b bytes (clipped size) (claim b other s)) (
          store_claimed-IsSame name other bytes (clipped size) s (claim b other s) ne
            (claim-IsClaims b other s f v) (claim-IsSame name other s ne f) (clipped_lem size).0)
      where
        either :
            (x : Bool) (r : Option ℕ × State b)
            → IsSame name s r.1
            → IsSame name s (if x then r else (none, s)).1
        either true r h = h
        either false r h = same name s

    -- On a device that works and in a well-formed state, a write of one file, under a name of at most 47 bytes
    -- without a zero, changes nothing that a read of another name returns, whether or not either file exists and
    -- whether or not the write succeeds.
    pub read-write_other :
        (name other bytes buf : List ℕ) (size k : ℕ) (s : State b)
        → name ≢ other
        → IsFileName other
        → IsValid b s
        → read_file b name buf k (write_file b other bytes size s).1 ≡ read_file b name buf k s
    read-write_other name other bytes buf size k s ne f v =
        read_file-same name buf k s (write_file b other bytes size s).1
          (write_file-IsSame name other bytes size s ne f v)

    store_claimed-IsValid :
        (name bytes : List ℕ) (size : ℕ) (r : Option ℕ × State b)
        → IsClaims b name r
        → r.1.fs_ready ≡ true
        → size ≤ 4096
        → IsValid b (store_claimed b bytes size r).1
          × ((store_claimed b bytes size r).1.fs_ready ≡ true)
    unfolding store_claimed stored
    store_claimed-IsValid name bytes size (none, s) c on most = (c, on)
    store_claimed-IsValid name bytes size (some i, s) c on most =
        let hi : i < 32 = omega (arith, c.first.inside, c.valid.table.count) in
        let used = named-in_use name (inode_at s.inodes i) c.first.named in
        rw (store_lem b works i bytes size s)
          ((stored-IsSaved b works i bytes size s c.valid hi used (omega arith)).1, on)

    claim_ready : (name : List ℕ) (s : State b) → (claim b name s).1.fs_ready ≡ s.fs_ready
    claim_ready name s =
        claim_cases b (λ r. r.1.fs_ready ≡ s.fs_ready) name s refl (λ i e. refl)
          λ i slot e a g. refl

    -- Every write to a file system that is ready, successful or not, leaves it well formed and ready.
    pub write_file-IsValid :
        (name bytes : List ℕ) (size : ℕ) (s : State b)
        → IsFileName name
        → IsValid b s
        → s.fs_ready ≡ true
        → IsValid b (write_file b name bytes size s).1
          × ((write_file b name bytes size s).1.fs_ready ≡ true)
    unfolding write_file
    write_file-IsValid name bytes size s f v on =
        subst
          (λ x.
            let r =
              if x then store_claimed b bytes (clipped size) (claim b name s) else (none, s) in
            IsValid b r.1 × (r.1.fs_ready ≡ true))
          (sym on)
          (store_claimed-IsValid name bytes (clipped size) (claim b name s)
            (claim-IsClaims b name s f v) (claim_ready name s ∙ on) (clipped_lem size).0)

    -- A first write finds an inode and a slot, and reports its size.
    pub write_file-first :
        (name bytes : List ℕ) (size : ℕ) (s : State b)
        → s.inodes ≡ replicate 32 no_inode
        → s.fs_ready ≡ true
        → (write_file b name bytes size s).0 ≡ some (clipped size)
    unfolding write_file claim store_claimed
    write_file-first name bytes size s e on =
        let found : find_inode name s.inodes ≡ none = ap (find_inode name) e ∙ nothing name in
        let free : alloc_inode s.inodes ≡ some 0 = ap alloc_inode e ∙ zeroth in
        let slot : alloc_slot s.inodes ≡ some 0 = ap alloc_slot e ∙ zeroth_slot in
        rw (on, found, free, slot, write_file, claim)
          (ap (λ r. r.0)
            (store_lem b works 0 bytes (clipped size) (record s {
              inodes = set s.inodes 0 (new_inode name 0);
              super = record (s.super) { nfiles = (s.super.nfiles + 1) % 2 ^ 32 };
            })))
      where
        nothing : (x : List ℕ) → find_inode x (replicate 32 no_inode) ≡ none
        nothing x = unfold find_inode find_inode_from in refl

        zeroth : alloc_inode (replicate 32 no_inode) ≡ some 0
        zeroth = unfold alloc_inode alloc_inode_from in refl

        zeroth_slot : alloc_slot (replicate 32 no_inode) ≡ some 0
        zeroth_slot = unfold alloc_slot mark_slots first_unmarked in refl
