-- ===== src/Fs/Disk/Fresh.antt =====
-- `diskfs_format` of fs/diskfs.c on a device that works.
use stellares_os.Common.{
  ℕ, zero, suc, ◌*◌, ◌≡◌, refl, ap, ◌∙◌, inr, Bool, true, false, none, some, List, ◌++◌, arith,
  length, length-append, length-replicate, All, replicate, get_or,
}
use stellares_os.Fs.Device.{BlockDevice, IsReliable}
use stellares_os.Fs.Disk.Table.{
  Inode, inode_at, no_inode, in_use, fresh_super, max_files, encode_table, encode_super, find_inode,
  find_inode_from,
}
use stellares_os.Fs.Disk.Table.Format.{
  IsSized, IsSuperSized, length-encode_table, length-encode_super,
}
use stellares_os.Fs.Disk.Persist.{IsTable, no_inode-IsSized}
use stellares_os.Fs.Disk.Files.{IsValid}
use stellares_os.Fs.Disk.{State, format, write_super, write_inodes, exists}

abbrev empty_table : List Inode
empty_table = replicate max_files no_inode

empty_at : (n i : ℕ) → get_or (replicate n no_inode) i no_inode ≡ no_inode
empty_at zero i = refl
empty_at (suc n) zero = refl
empty_at (suc n) (suc i) = empty_at n i

All-replicate : (n : ℕ) → All IsSized (replicate n no_inode)
All-replicate zero = tt
All-replicate (suc n) = (no_inode-IsSized, All-replicate n)

unused_at : (i : ℕ) → in_use (inode_at empty_table i) ≡ false
unused_at i = rw (empty_at 32 i)

empty-IsTable : IsTable empty_table
empty-IsTable = record {
  count = length-replicate {A = Inode} 32 no_inode;
  sized = All-replicate 32;
  slots = λ i u. cc (unused_at i);
  apart = λ i j u w ne. cc (unused_at i);
}

pub fresh-IsSuperSized : IsSuperSized fresh_super
fresh-IsSuperSized = record {
  magic_range = omega arith;
  version_range = omega arith;
  nfiles_range = omega arith;
  inode_range = omega arith;
  data_range = omega arith;
  label_size = refl;
  pad_size = refl;
}

module _ (b : BlockDevice) (works : IsReliable b) where
  -- What a format leaves: a ready file system without files, on the disk as in memory.
  pub record IsFormatted (r : Bool × State b) : Type 0 where
    pub success : r.0 ≡ true
    pub ready : r.1.fs_ready ≡ true
    pub valid : IsValid b r.1
    pub empty : r.1.inodes ≡ empty_table
    pub super_on_disk : b.read r.1.disk 0 1 ≡ some (encode_super fresh_super ++ r.1.behind_super)
    pub table_on_disk : b.read r.1.disk 1 4 ≡ some (encode_table empty_table)

  -- A format succeeds and leaves a well-formed file system that is ready and holds no file.
  pub format-IsFormatted : (s : State b) → length s.behind_super ≡ 4 → IsFormatted (format b s)
  unfolding format write_super write_inodes
  format-IsFormatted s h =
      let super = encode_super fresh_super ++ s.behind_super in
      let table = encode_table empty_table in
      let d1 = (b.write s.disk 0 1 super).1 in
      let length_super : length super ≡ 512 * 1 = omega (
        arith,
        h,
        length-append (encode_super fresh_super) s.behind_super,
        length-encode_super fresh_super fresh-IsSuperSized,
      ) in
      let length_table : length table ≡ 512 * 4 = omega (
        arith,
        length-encode_table empty_table (All-replicate 32),
        length-replicate {A = Inode} 32 no_inode,
      ) in
      let ok1 = works.write_ok s.disk 0 1 super in
      let ok2 = works.write_ok d1 1 4 table in
      record {
        success = rw (ok1, ok2);
        ready = rw (ok1, ok2);
        valid = record {
          table = rw (ok1, ok2) empty-IsTable;
          super_sized = rw (ok1, ok2) fresh-IsSuperSized;
          magic = rw (ok1, ok2);
          behind = rw (ok1, ok2) h;
        };
        empty = rw (ok1, ok2);
        super_on_disk =
            rw (ok1, ok2)
              (works.read_apart d1 1 4 table 0 1 (inr (omega arith))
                ∙ works.read_same s.disk 0 1 super length_super);
        table_on_disk = rw (ok1, ok2) (works.read_same d1 1 4 table length_table);
      }

  -- Behind a format no file is there.
  pub format-absent :
      (s : State b) (name : List ℕ)
      → length s.behind_super ≡ 4
      → exists b name (format b s).1 ≡ false
  unfolding exists
  format-absent s name h =
      rw (ap (find_inode name) (format-IsFormatted s h).empty ∙ nothing, exists) refl
    where
      nothing : find_inode name (replicate 32 no_inode) ≡ none
      nothing = unfold find_inode find_inode_from in refl
