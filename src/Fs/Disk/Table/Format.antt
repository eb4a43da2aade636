-- ===== src/Fs/Disk/Table/Format.antt =====
-- The tables of fs/diskfs.h as bytes: what is encoded is decoded.
use mathlib.Core.List.{append_assoc}
use stellares_os.Common.{
  ℕ, zero, suc, ◌*◌, ◌^◌, ◌<◌, ◌≡◌, refl, ap, List, [], ◌∷◌, ◌++◌, arith, length, length-append,
  take, drop, All,
}
use stellares_os.Fs.Disk.Table.{
  Inode, Super, le32, from_le32, encode_inode, decode_inode, encode_table, decode_table,
  encode_super, decode_super,
}

pub take-length : (xs ys : List ℕ) (n : ℕ) → length xs ≡ n → take n (xs ++ ys) ≡ xs
take-length [] ys zero h = refl
take-length [] ys (suc n) h = absurd (omega arith)
take-length (x ∷ xs) ys zero h = absurd (omega arith)
take-length (x ∷ xs) ys (suc n) h = ap (◌∷◌ x) (take-length xs ys n (omega arith))

drop-length : (xs ys : List ℕ) (n : ℕ) → length xs ≡ n → drop n (xs ++ ys) ≡ ys
drop-length [] ys zero h = refl
drop-length [] ys (suc n) h = absurd (omega arith)
drop-length (x ∷ xs) ys zero h = absurd (omega arith)
drop-length (x ∷ xs) ys (suc n) h = drop-length xs ys n (omega arith)

from_le32-le32 : (n : ℕ) (r : List ℕ) → n < 2 ^ 32 → from_le32 (le32 n ++ r) ≡ n
unfolding from_le32 le32
from_le32-le32 n r h = omega arith

drop-le32 : (n : ℕ) (r : List ℕ) → drop 4 (le32 n ++ r) ≡ r
unfolding le32
drop-le32 n r = refl

length-le32 : (n : ℕ) → length (le32 n) ≡ 4
unfolding le32
length-le32 n = refl

-- An inode that fits its 64 bytes.
pub record IsSized (i : Inode) : Type 0 where
  pub name_size : length i.name ≡ 48
  pub size_range : i.size < 2 ^ 32
  pub slot_range : i.slot < 2 ^ 32
  pub pad_size : length i.pad ≡ 6

pub length-encode_inode : (i : Inode) → IsSized i → length (encode_inode i) ≡ 64
unfolding encode_inode le32
length-encode_inode i h = omega (
  arith,
  h.name_size,
  h.pad_size,
  length-append i.name (le32 i.size ++ (le32 i.slot ++ (i.used ∷ i.is_dir ∷ i.pad))),
)

rest_of : Inode → List ℕ
rest_of i = i.used ∷ i.is_dir ∷ i.pad

-- The bytes of an inode, with what follows them.
encode_inode-append :
    (i : Inode) (r : List ℕ)
    → encode_inode i ++ r
      ≡ i.name ++ (le32 i.size ++ (le32 i.slot ++ (i.used ∷ i.is_dir ∷ (i.pad ++ r))))
unfolding encode_inode le32
encode_inode-append i r =
    append_assoc i.name (le32 i.size ++ (le32 i.slot ++ (i.used ∷ i.is_dir ∷ i.pad))) r

decode_fields :
    (i : Inode) (r : List ℕ)
    → IsSized i
    → decode_inode (i.name ++ (le32 i.size ++ (le32 i.slot ++ (i.used ∷ i.is_dir ∷ (i.pad ++ r)))))
      ≡ i
unfolding decode_inode
decode_fields i r h = rw (
  take-length i.name (le32 i.size ++ (le32 i.slot ++ (i.used ∷ i.is_dir ∷ (i.pad ++ r)))) 48
      h.name_size,
  drop-length i.name (le32 i.size ++ (le32 i.slot ++ (i.used ∷ i.is_dir ∷ (i.pad ++ r)))) 48
      h.name_size,
  from_le32-le32 i.size (le32 i.slot ++ (i.used ∷ i.is_dir ∷ (i.pad ++ r))) h.size_range,
  drop-le32 i.size (le32 i.slot ++ (i.used ∷ i.is_dir ∷ (i.pad ++ r))),
  from_le32-le32 i.slot (i.used ∷ i.is_dir ∷ (i.pad ++ r)) h.slot_range,
  drop-le32 i.slot (i.used ∷ i.is_dir ∷ (i.pad ++ r)),
  take-length i.pad r 6 h.pad_size,
)

-- An inode comes back from its bytes, whatever follows them.
pub decode-encode_inode :
    (i : Inode) (r : List ℕ) → IsSized i → decode_inode (encode_inode i ++ r) ≡ i
decode-encode_inode i r h = rw (encode_inode-append i r) (decode_fields i r h)

pub length-encode_table :
    (is : List Inode) → All IsSized is → length (encode_table is) ≡ 64 * length is
unfolding encode_table
length-encode_table [] h = refl
length-encode_table (i ∷ is) h = omega (
  arith,
  length-append (encode_inode i) (encode_table is),
  length-encode_inode i h.0,
  length-encode_table is h.1,
)

-- The table comes back from its sectors.
pub decode-encode_table :
    (is : List Inode) → All IsSized is → decode_table (length is) (encode_table is) ≡ is
unfolding decode_table encode_table
decode-encode_table [] h = refl
decode-encode_table (i ∷ is) h =
    rw
      (
        decode-encode_inode i (encode_table is) h.0,
        drop-length (encode_inode i) (encode_table is) 64 (length-encode_inode i h.0),
      )
      (ap (◌∷◌ i) (decode-encode_table is h.1))

pub record IsSuperSized (s : Super) : Type 0 where
  pub magic_range : s.magic < 2 ^ 32
  pub version_range : s.version < 2 ^ 32
  pub nfiles_range : s.nfiles < 2 ^ 32
  pub inode_range : s.inode_start < 2 ^ 32
  pub data_range : s.data_start < 2 ^ 32
  pub label_size : length s.label ≡ 16
  pub pad_size : length s.pad ≡ 472

-- `diskfs_super_t` has 508 bytes: it is four bytes short of the sector that it is read from and
-- written to.
pub length-encode_super : (s : Super) → IsSuperSized s → length (encode_super s) ≡ 508
unfolding encode_super le32
length-encode_super s h = omega (arith, h.label_size, h.pad_size, length-append s.label s.pad)

decode_super_fields :
    (s : Super) (r : List ℕ)
    → IsSuperSized s
    → decode_super (
        le32 s.magic
        ++ (le32 s.version
            ++ (le32 s.nfiles
                ++ (le32 s.inode_start ++ (le32 s.data_start ++ (s.label ++ (s.pad ++ r)))))))
      ≡ s
unfolding decode_super
decode_super_fields s r h =
    let t5 = s.label ++ (s.pad ++ r) in
    let t4 = le32 s.data_start ++ t5 in
    let t3 = le32 s.inode_start ++ t4 in
    let t2 = le32 s.nfiles ++ t3 in
    let t1 = le32 s.version ++ t2 in
    rw (
      from_le32-le32 s.magic t1 h.magic_range,
      drop-le32 s.magic t1,
      from_le32-le32 s.version t2 h.version_range,
      drop-le32 s.version t2,
      from_le32-le32 s.nfiles t3 h.nfiles_range,
      drop-le32 s.nfiles t3,
      from_le32-le32 s.inode_start t4 h.inode_range,
      drop-le32 s.inode_start t4,
      from_le32-le32 s.data_start t5 h.data_range,
      drop-le32 s.data_start t5,
      take-length s.label (s.pad ++ r) 16 h.label_size,
      drop-length s.label (s.pad ++ r) 16 h.label_size,
      take-length s.pad r 472 h.pad_size,
    )

-- The superblock comes back from its sector, whatever the last four bytes are.
pub decode-encode_super :
    (s : Super) (r : List ℕ) → IsSuperSized s → decode_super (encode_super s ++ r) ≡ s
unfolding encode_super
decode-encode_super s r h = simp append_assoc (decode_super_fields s r h)
