-- ===== src/Fs/Disk/Files.antt =====
-- Files of fs/diskfs.c written, read and found again after a restart.
use stellares_os.Common.{
  ℕ, ◌+◌, ◌%◌, ◌^◌, ◌<◌, ◌≤◌, ◌≡◌, ◌≢◌, refl, sym, ◌∙◌, inl, inr, Bool, true, Option, none, some,
  List, ◌++◌, arith, length, length-append, length-set, length-replicate, All-get_or, set,
  replicate, ◌==◌, Option-cases, take, take_all, drop, str_eq_refl,
}
use stellares_os.Libc.Str.{c_str}
use stellares_os.Libc.Str.Copy.{length-memcpy, c_str-strncpy}
use stellares_os.Fs.Device.{BlockDevice, IsReliable}
use stellares_os.Fs.Disk.Table.{
  Inode, Super, inode_at, no_inode, in_use, is_named, find_inode, alloc_inode, alloc_slot,
  new_inode, data_lba, encode_table, encode_super, decode_table, decode_super, magic_number,
  block_of,
}
use stellares_os.Fs.Disk.Table.Format.{
  IsSized, IsSuperSized, length-encode_table, length-encode_super, decode-encode_table,
  decode-encode_super,
}
use stellares_os.Fs.Disk.Table.Search.{
  IsFirst, find_inode-none, find_inode-some, alloc_inode-some, alloc_slot-fresh,
}
use stellares_os.Fs.Disk.{
  State, claim, store, write_super, write_inodes, read_super, read_inodes, init,
}
use stellares_os.Fs.Disk.Persist.{
  IsTable, inode_at-set, set-IsTable, new_inode-IsSized, no_inode-IsSized, saved, IsSaved,
  saved-IsSaved,
}

-- A name that a field of 48 bytes can hold: no terminator inside, and at most 47 bytes.
pub record IsFileName (name : List ℕ) : Type 0 where
  pub terminated : c_str name ≡ name
  pub short : length name ≤ 47

pub new_inode-named :
    (name : List ℕ) (slot : ℕ) → IsFileName name → is_named name (new_inode name slot) ≡ true
unfolding new_inode
new_inode-named name slot h =
    rw
      (
        c_str-strncpy (replicate 48 0) name 47 (omega arith) refl,
        h.terminated,
        take_all name 47 h.short,
      )
      (str_eq_refl name)

module _ (b : BlockDevice) where
  -- The state behind a format or a start, and behind every call after it.
  pub record IsValid (s : State b) : Type 0 where
    pub table : IsTable s.inodes
    pub super_sized : IsSuperSized s.super
    pub magic : s.super.magic ≡ magic_number
    pub behind : length s.behind_super ≡ 4

  -- The ways in which the search for an inode ends.
  pub claim_cases {ℓ} :
      (P : Option ℕ × State b → Type ℓ) (name : List ℕ) (s : State b)
      → P (none, s)
      → ((i : ℕ) → find_inode name s.inodes ≡ some i → P (some i, s))
      → ((i slot : ℕ)
          → find_inode name s.inodes ≡ none
          → alloc_inode s.inodes ≡ some i
          → alloc_slot s.inodes ≡ some slot
          → P (
            some i,
            record s {
              inodes = set s.inodes i (new_inode name slot);
              super = record (s.super) { nfiles = (s.super.nfiles + 1) % 2 ^ 32 };
            },
          ))
      → P (claim b name s)
  unfolding claim
  claim_cases P name s full old new = elim (Option-cases (find_inode name s.inodes)) [
    | inr (i, e) ↦ rw (e, claim) (old i e)
    | inl e ↦ elim (Option-cases (alloc_inode s.inodes)) [
      | inl f ↦ rw (e, f, claim) full
      | inr (i, f) ↦ elim (Option-cases (alloc_slot s.inodes)) [
        | inl g ↦ rw (e, f, g, claim) full
        | inr (slot, g) ↦ rw (e, f, g, claim) (new i slot e f g)
      ]
    ]
  ]

  -- The inode that is claimed for a name is the one that a search for the name finds.
  pub record IsClaimed (name : List ℕ) (i : ℕ) (s : State b) : Type 0 where
    pub valid : IsValid s
    pub first : IsFirst name s.inodes i

  abbrev pub IsClaims : List ℕ → Option ℕ × State b → Type 0
  IsClaims name (none, s) = IsValid s
  IsClaims name (some i, s) = IsClaimed name i s

  pub claim-IsClaims :
      (name : List ℕ) (s : State b) → IsFileName name → IsValid s → IsClaims name (claim b name s)
  claim-IsClaims name s h v =
      claim_cases (IsClaims name) name s v
        (λ i e. record { valid = v; first = find_inode-some name s.inodes i e })
        λ i slot e f g. record { valid = new_valid i slot f g; first = new_first i slot e f }
    where
      slot_in : (slot : ℕ) → alloc_slot s.inodes ≡ some slot → slot < 32
      slot_in slot g = (alloc_slot-fresh s.inodes slot g).0

      new_valid :
          (i slot : ℕ)
          → alloc_inode s.inodes ≡ some i
          → alloc_slot s.inodes ≡ some slot
          → IsValid (record s {
            inodes = set s.inodes i (new_inode name slot);
            super = record (s.super) { nfiles = (s.super.nfiles + 1) % 2 ^ 32 };
          })
      new_valid i slot f g = record {
        table =
            let (inside, unused) = alloc_inode-some s.inodes i f in
            let fresh = alloc_slot-fresh s.inodes slot g in
            set-IsTable s.inodes i (new_inode name slot) (omega (arith, inside, v.table.count))
              (new_inode-IsSized name slot fresh.0) (new_slot slot fresh.0)
              (λ j ne u. new_apart slot j (fresh.1 j u)) v.table;
        super_sized = record {
          magic_range = v.super_sized.magic_range;
          version_range = v.super_sized.version_range;
          nfiles_range = omega arith;
          inode_range = v.super_sized.inode_range;
          data_range = v.super_sized.data_range;
          label_size = v.super_sized.label_size;
          pad_size = v.super_sized.pad_size;
        };
        magic = v.magic;
        behind = v.behind;
      }
        where
          new_slot : (slot' : ℕ) → slot' < 32 → (new_inode name slot').slot < 32
          new_slot slot' l = unfold new_inode in l

          new_apart :
              (slot' j : ℕ)
              → (inode_at s.inodes j).slot ≢ slot'
              → (inode_at s.inodes j).slot ≢ (new_inode name slot').slot
          new_apart slot' j ne = unfold new_inode in ne

      new_first :
          (i slot : ℕ)
          → find_inode name s.inodes ≡ none
          → alloc_inode s.inodes ≡ some i
          → IsFirst name (set s.inodes i (new_inode name slot)) i
      new_first i slot e f =
          let (inside, unused) = alloc_inode-some s.inodes i f in
          let n = new_inode name slot in
          record {
            inside = omega (arith, inside, length-set s.inodes i n);
            named =
                ground (arith, inside, inode_at-set s.inodes i i n, new_inode-named name slot h);
            before = λ j l.
                ground
                  (arith, inside, inode_at-set s.inodes i j n, find_inode-none name s.inodes e j);
          }

  -- The state behind the transfers of a write that succeeds.
  unfoldable pub stored : ℕ → List ℕ → ℕ → IsReliable b → State b → State b
  stored i data' size works s =
      let is = set s.inodes i (record (inode_at s.inodes i) { size = size }) in
      record s {
        inodes = is;
        disk =
            saved b works s.disk (inode_at s.inodes i).slot (block_of data' size) (encode_table is)
              (encode_super s.super ++ s.behind_super);
      }

  module _ (works : IsReliable b) where
    pub store_lem :
        (i : ℕ) (data' : List ℕ) (size : ℕ) (s : State b)
        → store b i data' size s ≡ (some size, stored i data' size works s)
    unfolding store stored saved write_super write_inodes
    store_lem i data' size s =
        rw (works.write_ok s.disk (data_lba (inode_at s.inodes i).slot) 8 (block_of data' size))

    pub stored-IsSaved :
        (i : ℕ) (data' : List ℕ) (size : ℕ) (s : State b)
        → IsValid s
        → i < 32
        → in_use (inode_at s.inodes i) ≡ true
        → size < 2 ^ 32
        → let t = stored i data' size works s in
          IsSaved b works s.disk t.disk
            (inode_at s.inodes i).slot
            (block_of data' size)
            (encode_table t.inodes)
            (encode_super t.super ++ t.behind_super)
          × IsValid t
    unfolding stored
    stored-IsSaved i data' size s v hi u hs = (
      saved-IsSaved b works s.disk inode.slot (block_of data' size) (encode_table is)
          (encode_super s.super ++ s.behind_super) (v.table.slots i u) (length-block data' size)
          (omega (arith, length-encode_table is table.sized, table.count))
          (omega (
            arith,
            v.behind,
            length-append (encode_super s.super) s.behind_super,
            length-encode_super s.super v.super_sized,
          )),
      record { table = table; super_sized = v.super_sized; magic = v.magic; behind = v.behind },
    )
      where
        inode : Inode
        inode = inode_at s.inodes i

        is : List Inode
        is = set s.inodes i (record inode { size = size })

        old_sized : IsSized inode
        old_sized = All-get_or IsSized s.inodes i no_inode v.table.sized no_inode-IsSized

        table : IsTable is
        table =
            set-IsTable s.inodes i (record inode { size = size }) hi
              (record {
                name_size = old_sized.name_size;
                size_range = hs;
                slot_range = old_sized.slot_range;
                pad_size = old_sized.pad_size;
              })
              (v.table.slots i u) (λ j ne w. v.table.apart j i w u (λ e. ne (sym e))) v.table

        length-block : (bytes : List ℕ) (n : ℕ) → length (block_of bytes n) ≡ 4096
        length-block bytes n =
            unfold block_of in
            (length-memcpy (replicate 4096 0) bytes n ∙ length-replicate {A = ℕ} 4096 0)

  -- A start that finds the two tables on the disk takes them over.
  pub record IsStarted (t : State b) (is : List Inode) (r : Bool × State b) : Type 0 where
    pub success : r.0 ≡ true
    pub inodes : r.1.inodes ≡ is
    pub ready : r.1.fs_ready ≡ true
    pub disk : r.1.disk ≡ t.disk

  read_super_lem :
      (t : State b) (bs : List ℕ)
      → b.read t.disk 0 1 ≡ some bs
      → read_super b t
        ≡ (true, record t { super = decode_super bs; behind_super = take 4 (drop 508 bs) })
  unfolding read_super
  read_super_lem t bs e = rw (e, read_super)

  read_inodes_lem :
      (t : State b) (bs : List ℕ)
      → b.read t.disk 1 4 ≡ some bs
      → read_inodes b t ≡ (true, record t { inodes = decode_table 32 bs })
  unfolding read_inodes
  read_inodes_lem t bs e = rw (e, read_inodes)

  pub init-IsStarted :
      (t : State b) (is : List Inode) (super : Super) (behind : List ℕ)
      → b.detect t.disk ≡ true
      → b.read t.disk 0 1 ≡ some (encode_super super ++ behind)
      → b.read t.disk 1 4 ≡ some (encode_table is)
      → IsSuperSized super
      → super.magic ≡ magic_number
      → IsTable is
      → IsStarted t is (init b t)
  unfolding init
  init-IsStarted t is super behind d rs ri sized magic table =
      let same = decode-encode_super super behind sized in
      let first = read_super_lem t (encode_super super ++ behind) rs in
      let is_magic : ((decode_super (encode_super super ++ behind)).magic == magic_number) ≡ true =
        rw (same, magic) in
      let t1 : State b = record t {
        super = decode_super (encode_super super ++ behind);
        behind_super = take 4 (drop 508 (encode_super super ++ behind));
      } in
      let second' = read_inodes_lem t1 (encode_table is) ri in
      let table_back : decode_table 32 (encode_table is) ≡ is =
        rw (← table.count) (decode-encode_table is table.sized) in
      record {
        success = rw (d, first, is_magic, second');
        inodes = rw (d, first, is_magic, second') table_back;
        ready = rw (d, first, is_magic, second');
        disk = rw (d, first, is_magic, second');
      }
