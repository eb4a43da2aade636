-- ===== src/Fs/Disk/Pairs.antt =====
-- The first two files that fs/diskfs.c writes behind a format, on a device that works.
use stellares_os.Common.{
  ℕ, ◌+◌, ◌%◌, ◌^◌, ◌≤◌, ◌≡◌, refl, ap, ◌∙◌, inl, inr, true, none, some, List, ◌∷◌, ◌++◌, set,
  replicate, length, take, drop, Option-cases,
}
use stellares_os.Fs.Device.{BlockDevice, IsReliable}
use stellares_os.Fs.Disk.Table.{
  Inode, inode_at, no_inode, find_inode, find_inode_from, alloc_inode, alloc_inode_from, alloc_slot,
  mark_slots, first_unmarked, new_inode, clipped,
}
use stellares_os.Fs.Disk.Table.Search.{first-find_inode}
use stellares_os.Fs.Disk.{State, claim, store_claimed, write_file, read_file}
use stellares_os.Fs.Disk.Files.{stored, store_lem}
use stellares_os.Fs.Disk.Restart.{clip, IsWritten, read_known}

-- A table with one file, as the first write leaves it.
pub one_file : List ℕ → ℕ → List Inode
one_file name size = record (new_inode name 0) { size = size } ∷ replicate 31 no_inode

module _ (b : BlockDevice) (works : IsReliable b) where
  pub first_table :
      (name bytes : List ℕ) (size : ℕ) (s : State b)
      → s.inodes ≡ replicate 32 no_inode
      → s.fs_ready ≡ true
      → (write_file b name bytes size s).1.inodes ≡ one_file name (clipped size)
  unfolding write_file claim store_claimed one_file stored
  first_table name bytes size s e on =
      let found : find_inode name s.inodes ≡ none = ap (find_inode name) e ∙ nothing name in
      let free : alloc_inode s.inodes ≡ some 0 = ap alloc_inode e ∙ zeroth in
      let slot : alloc_slot s.inodes ≡ some 0 = ap alloc_slot e ∙ zeroth_slot in
      rw (on, found, free, slot, write_file, claim)
        (ap (λ r. r.1.inodes)
            (store_lem b works 0 bytes (clipped size) (record s {
              inodes = set s.inodes 0 (new_inode name 0);
              super = record (s.super) { nfiles = (s.super.nfiles + 1) % 2 ^ 32 };
            }))
          ∙ ap
              (λ is.
                let js = set is 0 (new_inode name 0) in
                set js 0 (record (inode_at js 0) { size = clipped size }))
              e)
    where
      nothing : (x : List ℕ) → find_inode x (replicate 32 no_inode) ≡ none
      nothing x = unfold find_inode find_inode_from in refl

      zeroth : alloc_inode (replicate 32 no_inode) ≡ some 0
      zeroth = unfold alloc_inode alloc_inode_from in refl

      zeroth_slot : alloc_slot (replicate 32 no_inode) ≡ some 0
      zeroth_slot = unfold alloc_slot mark_slots first_unmarked in refl

  -- A second write, of whatever name, finds an inode and a slot too.
  pub write_file-second :
      (name bytes : List ℕ) (size : ℕ) (first : List ℕ) (size' : ℕ) (s : State b)
      → s.inodes ≡ one_file first size'
      → s.fs_ready ≡ true
      → (write_file b name bytes size s).0 ≡ some (clipped size)
  unfolding write_file claim store_claimed
  write_file-second name bytes size first size' s e on =
      let free : alloc_inode s.inodes ≡ some 1 = ap alloc_inode e ∙ next_inode in
      let slot : alloc_slot s.inodes ≡ some 1 = ap alloc_slot e ∙ next_slot in
      elim (Option-cases (find_inode name s.inodes)) [
        | inr (i, found) ↦
            rw (on, found, write_file, claim)
              (ap (λ r. r.0) (store_lem b works i bytes (clipped size) s))
        | inl found ↦
            rw (on, found, free, slot, write_file, claim)
              (ap (λ r. r.0)
                (store_lem b works 1 bytes (clipped size) (record s {
                  inodes = set s.inodes 1 (new_inode name 1);
                  super = record (s.super) { nfiles = (s.super.nfiles + 1) % 2 ^ 32 };
                })))
      ]
    where
      next_inode : alloc_inode (one_file first size') ≡ some 1
      next_inode = unfold alloc_inode alloc_inode_from one_file new_inode in refl

      next_slot : alloc_slot (one_file first size') ≡ some 1
      next_slot = unfold alloc_slot mark_slots first_unmarked one_file new_inode in refl

  -- What a read gives of a file that was written.
  pub read-IsWritten :
      (name buf bytes : List ℕ) (k size i : ℕ) (s : State b)
      → IsWritten b works name bytes size s i
      → s.fs_ready ≡ true
      → size ≤ 4096
      → size ≤ length bytes
      → clip k size ≤ length buf
      → read_file b name buf k s
        ≡ (some (clip k size), take (clip k size) bytes ++ drop (clip k size) buf)
  read-IsWritten name buf bytes k size i s w on most fits room =
      read_known b works name buf bytes k i size (inode_at s.inodes i).slot s on
        (first-find_inode name s.inodes i w.first) refl w.holds w.on_disk most fits room
