-- ===== src/Fs/Disk/Table.antt =====
-- The records of fs/diskfs.h, their bytes on the disk, and the searches of fs/diskfs.c in the inode
-- table. The fields are packed and little-endian.
pub mod Format
pub mod Search
use stellares_os.Common.{
  ℕ, zero, suc, ◌+◌, ◌-◌, ◌*◌, ◌/◌, ◌%◌, ◌^◌, Bool, true, false, ◌&&◌, not, Option, none, some,
  List, [], ◌∷◌, ◌++◌, ltb, ◌==◌, if◌then◌else◌, set, get_or, replicate, take, drop, str_eq, length,
  codes,
}
use stellares_os.Libc.Str.{c_str, strncpy, memcpy}

-- `diskfs_inode_t`; `name` is the field's 48 bytes, and `pad` its last 6.
pub record Inode : Type 0 where
  pub name : List ℕ
  pub size : ℕ
  pub slot : ℕ
  pub used : ℕ
  pub is_dir : ℕ
  pub pad : List ℕ

-- `diskfs_super_t`: 508 bytes.
pub record Super : Type 0 where
  pub magic : ℕ
  pub version : ℕ
  pub nfiles : ℕ
  pub inode_start : ℕ
  pub data_start : ℕ
  pub label : List ℕ
  pub pad : List ℕ

abbrev pub magic_number : ℕ
magic_number = 0x5354454C

abbrev pub max_files : ℕ
max_files = 32

abbrev pub no_inode : Inode
no_inode = record {
  name = replicate 48 0;
  size = 0;
  slot = 0;
  used = 0;
  is_dir = 0;
  pad = replicate 6 0;
}

abbrev pub inode_at : List Inode → ℕ → Inode
inode_at is i = get_or is i no_inode

-- What `diskfs_format` writes into the superblock; the label is "StellaresOS".
abbrev pub fresh_super : Super
fresh_super = record {
  magic = magic_number;
  version = 1;
  nfiles = 0;
  inode_start = 1;
  data_start = 5;
  label = codes "StellaresOS" ++ replicate 5 0;
  pad = replicate 472 0;
}

-- A cleared inode that has been given its name, slot and mark.
unfoldable pub new_inode : List ℕ → ℕ → Inode
new_inode name slot = record no_inode {
  name = strncpy (replicate 48 0) name 47;
  used = 1;
  slot = slot;
}

-- A `uint32_t` and its four bytes.
pub le32 : ℕ → List ℕ
le32 n = (n % 256) ∷ (n / 256 % 256) ∷ (n / 65536 % 256) ∷ (n / 16777216 % 256) ∷ []

abbrev byte_at : List ℕ → ℕ → ℕ
byte_at bs i = get_or bs i 0

pub from_le32 : List ℕ → ℕ
from_le32 bs = byte_at bs 0 + 256 * byte_at bs 1 + 65536 * byte_at bs 2 + 16777216 * byte_at bs 3

pub encode_inode : Inode → List ℕ
unfolding le32
encode_inode i = i.name ++ (le32 i.size ++ (le32 i.slot ++ (i.used ∷ i.is_dir ∷ i.pad)))

pub decode_inode : List ℕ → Inode
unfolding from_le32
decode_inode bs =
    let r = drop 48 bs in
    let s = drop 4 r in
    let t = drop 4 s in
    record {
      name = take 48 bs;
      size = from_le32 r;
      slot = from_le32 s;
      used = byte_at t 0;
      is_dir = byte_at t 1;
      pad = take 6 (drop 2 t);
    }

-- The array of inodes in the four sectors behind the superblock.
pub encode_table : List Inode → List ℕ
unfolding encode_inode
encode_table [] = []
encode_table (i ∷ is) = encode_inode i ++ encode_table is

pub decode_table : ℕ → List ℕ → List Inode
unfolding decode_inode
decode_table zero bs = []
decode_table (suc n) bs = decode_inode bs ∷ decode_table n (drop 64 bs)

pub encode_super : Super → List ℕ
unfolding le32
encode_super s =
    le32 s.magic
    ++ (le32 s.version
        ++ (le32 s.nfiles ++ (le32 s.inode_start ++ (le32 s.data_start ++ (s.label ++ s.pad)))))

pub decode_super : List ℕ → Super
unfolding from_le32
decode_super bs =
    let b1 = drop 4 bs in
    let b2 = drop 4 b1 in
    let b3 = drop 4 b2 in
    let b4 = drop 4 b3 in
    let b5 = drop 4 b4 in
    record {
      magic = from_le32 bs;
      version = from_le32 b1;
      nfiles = from_le32 b2;
      inode_start = from_le32 b3;
      data_start = from_le32 b4;
      label = take 16 b5;
      pad = take 472 (drop 16 b5);
    }

abbrev pub in_use : Inode → Bool
in_use i = not (i.used == 0)

-- The string is compared with the one that the name field holds.
abbrev pub is_named : List ℕ → Inode → Bool
is_named name i = in_use i && str_eq (c_str i.name) name

unfoldable pub find_inode_from : List ℕ → List Inode → ℕ → Option ℕ
find_inode_from name [] i = none
find_inode_from name (n ∷ ns) i =
    if is_named name n then some i else find_inode_from name ns (i + 1)

unfoldable pub find_inode : List ℕ → List Inode → Option ℕ
find_inode name is = find_inode_from name is 0

unfoldable pub alloc_inode_from : List Inode → ℕ → Option ℕ
alloc_inode_from [] i = none
alloc_inode_from (n ∷ ns) i = if in_use n then alloc_inode_from ns (i + 1) else some i

unfoldable pub alloc_inode : List Inode → Option ℕ
alloc_inode is = alloc_inode_from is 0

-- The array `used` behind the first loop of `alloc_slot`; a slot past its end marks nothing.
unfoldable pub mark_slots : List Bool → List Inode → List Bool
mark_slots marks [] = marks
mark_slots marks (i ∷ is) = mark_slots (if in_use i then set marks i.slot true else marks) is

unfoldable pub first_unmarked : List Bool → ℕ → Option ℕ
first_unmarked [] i = none
first_unmarked (m ∷ ms) i = if m then first_unmarked ms (i + 1) else some i

unfoldable pub alloc_slot : List Inode → Option ℕ
unfolding mark_slots first_unmarked
alloc_slot is = first_unmarked (mark_slots (replicate 32 false) is) 0

-- The sector of a slot: `DATA_SECTOR + slot * DISKFS_SECS_FILE`
unfoldable pub data_lba : ℕ → ℕ
data_lba slot = (5 + slot * 8) % 2 ^ 32

unfoldable pub clipped : ℕ → ℕ
clipped size = if ltb 4096 size then 4096 else size

unfoldable pub read_count : Inode → ℕ → ℕ
read_count i max' = if ltb i.size max' then i.size else max'

-- The files in use, with their names as `strncpy` cuts them and their sizes.
pub list_from : List Inode → List (List ℕ × ℕ)
list_from [] = []
list_from (i ∷ is) =
    if in_use i then (take 47 (c_str i.name), i.size) ∷ list_from is else list_from is

-- `buf` behind `memset` and `memcpy`: the file's bytes, and zeros up to 4 KB.
unfoldable pub block_of : List ℕ → ℕ → List ℕ
block_of content size = memcpy (replicate 4096 0) content size
