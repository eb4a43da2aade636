-- ===== src/Fs/Disk.antt =====
-- fs/diskfs.c and fs/diskfs.h: the file system on the disk, over a block device.
pub mod Table
pub mod Persist
pub mod Files
pub mod Restart
pub mod Fresh
pub mod Keep
pub mod Pairs
mod Tests
use stellares_os.Common.{
  ℕ, zero, suc, ◌+◌, ◌-◌, ◌*◌, ◌%◌, ◌^◌, Bool, true, false, ◌&&◌, not, Option, none, some, List, [],
  ◌∷◌, ◌++◌, ltb, leb, ◌==◌, if◌then◌else◌, set, replicate, take, drop,
}
use stellares_os.Libc.Str.{memcpy, strncpy, c_str}
use stellares_os.Fs.Device.{BlockDevice}
use Table.{
  Inode, Super, no_inode, inode_at, find_inode, alloc_inode, alloc_slot, encode_super, decode_super,
  encode_table, decode_table, new_inode, data_lba, clipped, read_count, list_from, block_of,
  fresh_super, magic_number, max_files,
}

module _ (b : BlockDevice) where
  open b use {Disk, detect, read, write}

  -- The static variables of the file, and the disk. A transfer of the superblock's sector moves four
  -- bytes more than `super` has: `behind_super` are the bytes of memory there, whatever they belong to.
  pub record State : Type 0 where
    pub behind_super : List ℕ
    pub super : Super
    pub inodes : List Inode
    pub fs_ready : Bool
    pub disk : Disk

  -- A read that fails leaves the buffer as it was.
  pub read_super : State → Bool × State
  read_super s = elim (read s.disk 0 1) [
    | none ↦ (false, s)
    | some bs ↦ (true, record s { super = decode_super bs; behind_super = take 4 (drop 508 bs) })
  ]

  pub read_inodes : State → Bool × State
  read_inodes s = elim (read s.disk 1 4) [
    | none ↦ (false, s)
    | some bs ↦ (true, record s { inodes = decode_table max_files bs })
  ]

  pub write_super : State → Bool × State
  write_super s =
      let (good, d) = write s.disk 0 1 (encode_super s.super ++ s.behind_super) in
      (good, record s { disk = d })

  pub write_inodes : State → Bool × State
  write_inodes s =
      let (good, d) = write s.disk 1 4 (encode_table s.inodes) in (good, record s { disk = d })

  -- `true` is the return value 0, `false` is -1.
  pub format : State → Bool × State
  format s =
      let (good, s1) = write_super (record s { super = fresh_super }) in
      if good
      then (let (good', s2) = write_inodes (record s1 { inodes = replicate max_files no_inode }) in
          if good' then (true, record s2 { fs_ready = true }) else (false, s2))
      else (false, s1)

  pub init : State → Bool × State
  init s =
      if detect s.disk
      then (let (good, s1) = read_super s in
          if good
          then (if s1.super.magic == magic_number
              then (let (good', s2) = read_inodes s1 in
                  if good' then (true, record s2 { fs_ready = true }) else (false, s2))
              else format s1)
          else (false, s1))
      else (false, s)

  -- The inode for `name`, an old one or a new one, and the superblock that counts it.
  pub claim : List ℕ → State → Option ℕ × State
  claim name s = elim (find_inode name s.inodes) [
    | some i ↦ (some i, s)
    | none ↦ elim (alloc_inode s.inodes) [
      | none ↦ (none, s)
      | some i ↦ elim (alloc_slot s.inodes) [
        | none ↦ (none, s)
        | some slot ↦ (
          some i,
          record s {
            inodes = set s.inodes i (new_inode name slot);
            super = record (s.super) { nfiles = (s.super.nfiles + 1) % 2 ^ 32 };
          },
        )
      ]
    ]
  ]

  -- What goes to the disk once the inode is known: the data, then the two tables. The results of the
  -- last two writes are not looked at.
  pub store : ℕ → List ℕ → ℕ → State → Option ℕ × State
  store i data' size s =
      let inode = inode_at s.inodes i in
      let s1 = record s { inodes = set s.inodes i (record inode { size = size }) } in
      let (good, d) = write s1.disk (data_lba inode.slot) 8 (block_of data' size) in
      let s2 = record s1 { disk = d } in
      if good then (some size, (write_super (write_inodes s2).1).1) else (none, s2)

  pub store_claimed : List ℕ → ℕ → Option ℕ × State → Option ℕ × State
  store_claimed data' size (none, s) = (none, s)
  store_claimed data' size (some i, s) = store i data' size s

  -- `none` is the return value -1.
  pub write_file : List ℕ → List ℕ → ℕ → State → Option ℕ × State
  unfolding store_claimed
  write_file name data' size s =
      if s.fs_ready then store_claimed data' (clipped size) (claim name s) else (none, s)

  -- The count and the caller's buffer.
  pub read_file : List ℕ → List ℕ → ℕ → State → Option ℕ × List ℕ
  read_file name buf max' s =
      if s.fs_ready
      then elim (find_inode name s.inodes) [
        | none ↦ (none, buf)
        | some i ↦
            let inode = inode_at s.inodes i in
            elim (read s.disk (data_lba inode.slot) 8) [
              | none ↦ (none, buf)
              | some tmp ↦ let n = read_count inode max' in (some n, memcpy buf tmp n)
            ]
      ]
      else (none, buf)

  pub delete_file : List ℕ → State → Bool × State
  delete_file name s =
      if s.fs_ready
      then elim (find_inode name s.inodes) [
        | none ↦ (false, s)
        | some i ↦
            let s1 = record s {
              inodes = set s.inodes i no_inode;
              super = record (s.super) { nfiles = s.super.nfiles - 1 };
            } in
            (true, (write_super (write_inodes s1).1).1)
      ]
      else (false, s)

  pub list : State → Option (List (List ℕ × ℕ))
  list s = if s.fs_ready then some (list_from s.inodes) else none

  pub exists : List ℕ → State → Bool
  exists name s = elim (find_inode name s.inodes) [ none ↦ false | some i ↦ true ]
