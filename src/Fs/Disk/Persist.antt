-- ===== src/Fs/Disk/Persist.antt =====
-- What fs/diskfs.c keeps on a device that works: a file that was written is there after a restart.
use stellares_os.Common.{
  ℕ, ◌+◌, ◌*◌, ◌<◌, ◌≤◌, ◌≡◌, ◌≢◌, refl, ◌∙◌, ◌⊎◌, inl, true, some, List, arith, length, length-set,
  All, All-set, set, get_or-set, replicate, ◌==◌, if◌then◌else◌,
}
use stellares_os.Libc.Str.Copy.{length-strncpy}
use stellares_os.Fs.Device.{BlockDevice, IsReliable}
use stellares_os.Fs.Disk.Table.{Inode, inode_at, no_inode, in_use, new_inode, data_lba, clipped}
use stellares_os.Fs.Disk.Table.Format.{IsSized}

-- The inode table: 32 entries that fit their bytes; those in use have slots of their own.
pub record IsTable (is : List Inode) : Type 0 where
  pub count : length is ≡ 32
  pub sized : All IsSized is
  pub slots : (i : ℕ) → in_use (inode_at is i) ≡ true → (inode_at is i).slot < 32
  pub apart :
      (i j : ℕ)
      → in_use (inode_at is i) ≡ true
      → in_use (inode_at is j) ≡ true
      → i ≢ j
      → (inode_at is i).slot ≢ (inode_at is j).slot

pub inode_at-set :
    (is : List Inode) (i j : ℕ) (n : Inode)
    → i < length is
    → inode_at (set is i n) j ≡ (if i == j then n else inode_at is j)
inode_at-set is i j n h = get_or-set is i j n no_inode h

pub no_inode-IsSized : IsSized no_inode
no_inode-IsSized = omega arith

-- Entry `i` may be replaced by an inode in use whose slot no other entry has.
pub set-IsTable :
    (is : List Inode) (i : ℕ) (n : Inode)
    → i < 32
    → IsSized n
    → n.slot < 32
    → ((j : ℕ) → i ≢ j → in_use (inode_at is j) ≡ true → (inode_at is j).slot ≢ n.slot)
    → IsTable is
    → IsTable (set is i n)
set-IsTable is i n hi sized slot fresh v = record {
  count = length-set is i n ∙ v.count;
  sized = All-set IsSized is i n v.sized sized;
  slots = λ j u. ground (arith, v.count, inode_at-set is i j n, v.slots j);
  apart = λ j k u w ne. ground (
    arith,
    v.count,
    inode_at-set is i j n,
    inode_at-set is i k n,
    fresh j,
    fresh k,
    v.apart j k,
    ne,
  );
}

pub new_inode-IsSized : (name : List ℕ) (slot : ℕ) → slot < 32 → IsSized (new_inode name slot)
unfolding new_inode
new_inode-IsSized name slot h = record {
  name_size = length-strncpy (replicate 48 0) name 47;
  size_range = omega arith;
  slot_range = omega arith;
  pad_size = refl;
}

data_lba-slot : (slot : ℕ) → slot < 32 → data_lba slot ≡ 5 + slot * 8
unfolding data_lba
data_lba-slot slot h = omega arith

pub clipped_lem : (size : ℕ) → (clipped size ≤ 4096) × (clipped size ≤ size)
unfolding clipped
clipped_lem size = (ground arith, ground arith)

module _ (b : BlockDevice) (works : IsReliable b) where
  -- The disk behind the three transfers of a write.
  unfoldable pub saved : b.Disk → ℕ → List ℕ → List ℕ → List ℕ → b.Disk
  saved d slot block table super =
      (b.write (b.write (b.write d (data_lba slot) 8 block).1 1 4 table).1 0 1 super).1

  -- What a restart and a reader find there.
  pub record IsSaved (d d' : b.Disk) (slot : ℕ) (block table super : List ℕ) : Type 0 where
    pub superblock : b.read d' 0 1 ≡ some super
    pub inodes : b.read d' 1 4 ≡ some table
    pub contents : b.read d' (data_lba slot) 8 ≡ some block
    pub others : (t : ℕ) → t < 32 → t ≢ slot → b.read d' (data_lba t) 8 ≡ b.read d (data_lba t) 8
    pub present : b.detect d' ≡ b.detect d

  pub saved-IsSaved :
      (d : b.Disk) (slot : ℕ) (block table super : List ℕ)
      → slot < 32
      → length block ≡ 4096
      → length table ≡ 2048
      → length super ≡ 512
      → IsSaved d (saved d slot block table super) slot block table super
  unfolding saved
  saved-IsSaved d slot block table super hs hb ht hp = record {
    superblock = works.read_same _ 0 1 super hp;
    inodes = works.read_apart _ 0 1 super 1 4 (inl (omega arith)) ∙ works.read_same _ 1 4 table ht;
    contents =
        works.read_apart _ 0 1 super (data_lba slot) 8 (inl (after 1 slot hs (omega arith)))
        ∙ works.read_apart _ 1 4 table (data_lba slot) 8 (inl (after 5 slot hs (omega arith)))
        ∙ works.read_same _ (data_lba slot) 8 block hb;
    others = λ t ht' ne.
        works.read_apart _ 0 1 super (data_lba t) 8 (inl (after 1 t ht' (omega arith)))
        ∙ works.read_apart _ 1 4 table (data_lba t) 8 (inl (after 5 t ht' (omega arith)))
        ∙ works.read_apart d (data_lba slot) 8 block (data_lba t) 8 (disjoint t ht' ne);
    present =
        works.detect_same _ 0 1 super
        ∙ works.detect_same _ 1 4 table
        ∙ works.detect_same d (data_lba slot) 8 block;
  }
    where
      after : (k t : ℕ) → t < 32 → k ≤ 5 → k ≤ data_lba t
      after k t h l = omega (arith, data_lba-slot t h)

      disjoint :
          (t : ℕ)
          → t < 32
          → t ≢ slot
          → (data_lba slot + 8 ≤ data_lba t) ⊎ (data_lba t + 8 ≤ data_lba slot)
      disjoint t h ne = ground (arith, data_lba-slot t h, data_lba-slot slot hs, ne)
