-- ===== src/Fs/Disk/Restart.antt =====
-- A file of fs/diskfs.c across a restart of the system.
use stellares_os.Common.{
  ℕ, ◌<◌, ◌≤◌, ◌≡◌, ap, sym, ◌∙◌, true, Option, none, some, List, ◌++◌, arith, length, length-set,
  length-replicate, set, replicate, if◌then◌else◌, take, drop, ltb, subst,
}
use stellares_os.Libc.Str.Copy.{memcpy-memcpy}
use stellares_os.Fs.Device.{BlockDevice, IsReliable}
use stellares_os.Fs.Disk.Table.{
  Inode, inode_at, in_use, is_named, find_inode, data_lba, clipped, read_count, block_of,
  encode_table, encode_super,
}
use stellares_os.Fs.Disk.Table.Search.{IsFirst, first-find_inode}
use stellares_os.Fs.Disk.{State, claim, store, store_claimed, write_file, read_file, init}
use stellares_os.Fs.Disk.Persist.{inode_at-set, clipped_lem}
use stellares_os.Fs.Disk.Files.{
  IsFileName, IsValid, IsClaims, IsClaimed, claim-IsClaims, stored, store_lem, stored-IsSaved,
  init-IsStarted,
}

-- The number of bytes that a read of `k` bytes returns.
abbrev pub clip : ℕ → ℕ → ℕ
clip k size = if ltb size k then size else k

resized : List Inode → ℕ → ℕ → List Inode
resized is i size = set is i (record (inode_at is i) { size = size })

resized-IsFirst :
    (name : List ℕ) (is : List Inode) (i size : ℕ)
    → IsFirst name is i
    → IsFirst name (resized is i size) i
unfolding resized
resized-IsFirst name is i size f =
    let n = record (inode_at is i) { size = size } in
    record {
      inside = omega (arith, f.inside, length-set is i n);
      named = ground (arith, f.inside, inode_at-set is i i n, f.named);
      before = λ j l. ground (arith, f.inside, inode_at-set is i j n, f.before j);
    }

resized_at :
    (is : List Inode) (i size : ℕ)
    → i < length is
    → ((inode_at (resized is i size) i).slot ≡ (inode_at is i).slot)
      × ((inode_at (resized is i size) i).size ≡ size)
unfolding resized
resized_at is i size h =
    ground (arith, inode_at-set is i i (record (inode_at is i) { size = size }))

pub named-in_use : (name : List ℕ) (n : Inode) → is_named name n ≡ true → in_use n ≡ true
named-in_use name n h = ground arith

module _ (b : BlockDevice) (works : IsReliable b) where
  -- What a read finds, where the inode and the block of a file are known.
  pub read_known :
      (name buf bytes : List ℕ) (k i size slot : ℕ) (t : State b)
      → t.fs_ready ≡ true
      → find_inode name t.inodes ≡ some i
      → (inode_at t.inodes i).slot ≡ slot
      → (inode_at t.inodes i).size ≡ size
      → b.read t.disk (data_lba slot) 8 ≡ some (block_of bytes size)
      → size ≤ 4096
      → size ≤ length bytes
      → clip k size ≤ length buf
      → read_file b name buf k t
        ≡ (some (clip k size), take (clip k size) bytes ++ drop (clip k size) buf)
  unfolding read_file read_count block_of
  read_known name buf bytes k i size slot t on found es ez block most fits room =
      let room_there : size ≤ length (replicate {A = ℕ} 4096 0) =
        omega (arith, most, length-replicate {A = ℕ} 4096 0) in
      rw (on, found, es, block, ez)
        (ap (λ out. (some (clip k size), out))
          (memcpy-memcpy buf (replicate 4096 0) bytes (clip k size) size (ground arith) room_there
            fits room))

  -- The state that `diskfs_write` leaves, if it reports success.
  pub record IsWritten (name bytes : List ℕ) (size : ℕ) (s' : State b) (i : ℕ) : Type 0 where
    pub valid : IsValid b s'
    pub first : IsFirst name s'.inodes i
    pub holds : (inode_at s'.inodes i).size ≡ size
    pub on_disk :
        b.read s'.disk (data_lba (inode_at s'.inodes i).slot) 8 ≡ some (block_of bytes size)
    pub superblock : b.read s'.disk 0 1 ≡ some (encode_super s'.super ++ s'.behind_super)
    pub inodes : b.read s'.disk 1 4 ≡ some (encode_table s'.inodes)

  store-IsWritten :
      (name bytes : List ℕ) (size i : ℕ) (s : State b)
      → IsClaimed b name i s
      → size ≤ 4096
      → IsWritten name bytes size (store b i bytes size s).1 i
  unfolding stored resized
  store-IsWritten name bytes size i s c most =
      let hi : i < 32 = omega (arith, c.first.inside, c.valid.table.count) in
      let r =
        stored-IsSaved b works i bytes size s c.valid hi
          (named-in_use name (inode_at s.inodes i) c.first.named) (omega arith) in
      let at = resized_at s.inodes i size c.first.inside in
      rw (store_lem b works i bytes size s) (record {
        valid = r.1;
        first = resized-IsFirst name s.inodes i size c.first;
        holds = at.1;
        on_disk =
            subst
              (λ slot.
                b.read (stored b i bytes size works s).disk (data_lba slot) 8
                ≡ some (block_of bytes size))
              (sym at.0) r.0.contents;
        superblock = r.0.superblock;
        inodes = r.0.inodes;
      })

  store_claimed-IsWritten :
      (name bytes : List ℕ) (size n : ℕ) (r : Option ℕ × State b)
      → IsClaims b name r
      → (store_claimed b bytes (clipped size) r).0 ≡ some n
      → (i : ℕ) × (n ≡ clipped size)
        × IsWritten name bytes n (store_claimed b bytes (clipped size) r).1 i
  unfolding store_claimed
  store_claimed-IsWritten name bytes size n (none, s) c e = cc
  store_claimed-IsWritten name bytes size n (some i, s) c e =
      let w = store-IsWritten name bytes (clipped size) i s c (clipped_lem size).0 in
      let same : clipped size ≡ n = size_of e in
      (
        i,
        sym same,
        subst (λ m. IsWritten name bytes m (store b i bytes (clipped size) s).1 i) same w,
      )
    where
      size_of : (store b i bytes (clipped size) s).0 ≡ some n → clipped size ≡ n
      size_of q = ground (arith, store_lem b works i bytes (clipped size) s, q)

  pub write_file-IsWritten :
      (name bytes : List ℕ) (size n : ℕ) (s : State b)
      → IsFileName name
      → IsValid b s
      → s.fs_ready ≡ true
      → (write_file b name bytes size s).0 ≡ some n
      → (i : ℕ) × (n ≡ clipped size) × IsWritten name bytes n (write_file b name bytes size s).1 i
  write_file-IsWritten name bytes size n s h v on e =
      let same = write_ready name bytes size s on in
      let w =
        store_claimed-IsWritten name bytes size n (claim b name s) (claim-IsClaims b name s h v)
          (ap (λ r. r.0) (sym same) ∙ e) in
      (w.0, w.1, subst (λ r. IsWritten name bytes n r.1 w.0) (sym same) w.2)
    where
      write_ready :
          (name' bytes' : List ℕ) (size' : ℕ) (s' : State b)
          → s'.fs_ready ≡ true
          → write_file b name' bytes' size' s'
            ≡ store_claimed b bytes' (clipped size') (claim b name' s')
      write_ready name' bytes' size' s' q = unfold write_file in rw q

  -- A successful write survives a restart: when `diskfs_init` then runs, from whatever memory holds,
  -- on the disk that the write left, it succeeds, and a read by the same name returns the first bytes
  -- that were written, as many as the file can hold and the reader asks for.
  pub read-init-write :
      (name bytes buf : List ℕ) (size n k : ℕ) (s t : State b)
      → IsFileName name
      → IsValid b s
      → s.fs_ready ≡ true
      → size ≤ length bytes
      → (write_file b name bytes size s).0 ≡ some n
      → t.disk ≡ (write_file b name bytes size s).1.disk
      → b.detect t.disk ≡ true
      → clip k n ≤ length buf
      → ((init b t).0 ≡ true)
        × (n ≡ clipped size)
        × (read_file b name buf k (init b t).1
            ≡ (some (clip k n), take (clip k n) bytes ++ drop (clip k n) buf))
  read-init-write name bytes buf size n k s t h v on fits e same_disk there room =
      let (i, en, w) = write_file-IsWritten name bytes size n s h v on e in
      let s' = (write_file b name bytes size s).1 in
      let st =
        init-IsStarted b t s'.inodes s'.super s'.behind_super there (rw same_disk w.superblock)
          (rw same_disk w.inodes) w.valid.super_sized w.valid.magic w.valid.table in
      (
        st.success,
        en,
        read_known name buf bytes k i n (inode_at s'.inodes i).slot (init b t).1 st.ready
            (ap (find_inode name) st.inodes ∙ first-find_inode name s'.inodes i w.first)
            (ap (λ is. (inode_at is i).slot) st.inodes)
            (ap (λ is. (inode_at is i).size) st.inodes ∙ w.holds)
            (ap (λ d. b.read d (data_lba (inode_at s'.inodes i).slot) 8) (st.disk ∙ same_disk)
              ∙ w.on_disk)
            (omega (arith, en, clipped_lem size)) (omega (arith, en, clipped_lem size)) room,
      )
