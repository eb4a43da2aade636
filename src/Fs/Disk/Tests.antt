-- ===== src/Fs/Disk/Tests.antt =====
-- fs/diskfs.c on a device that is an array of bytes.
use stellares_os.Common.{
  ℕ, ◌≡◌, refl, Bool, true, false, Option, some, List, [], ◌∷◌, ◌++◌, arith, take, drop,
}
use stellares_os.Libc.Str.{c_str}
use stellares_os.Fs.Device.Memory.{memory, memory-IsReliable}
use stellares_os.Fs.Ram.Contents.{clip}
use stellares_os.Fs.Disk.{
  State, format, init, write_super, write_inodes, claim, store, store_claimed, write_file,
  read_file,
}
use stellares_os.Fs.Disk.Table.{
  Inode, no_inode, fresh_super, clipped, encode_inode, decode_inode, find_inode, find_inode_from,
  alloc_inode, alloc_inode_from, alloc_slot, mark_slots, first_unmarked, new_inode,
}
use stellares_os.Fs.Disk.Table.Format.{IsSized, decode-encode_inode}
use stellares_os.Fs.Disk.Persist.{new_inode-IsSized}
use stellares_os.Fs.Disk.Files.{IsFileName}
use stellares_os.Fs.Disk.Restart.{read-init-write, IsWritten, write_file-IsWritten}
use stellares_os.Fs.Disk.Keep.{read-write_other}
use stellares_os.Fs.Disk.Fresh.{IsFormatted, format-IsFormatted}

-- Before a format.
abbrev blank_state : State memory
blank_state = record {
  behind_super = 1 ∷ 2 ∷ 3 ∷ 4 ∷ [];
  super = fresh_super;
  inodes = [];
  fs_ready = false;
  disk = λ a. 0;
}

abbrev formatted : Bool × State memory
formatted = format memory blank_state

after_format : IsFormatted memory memory-IsReliable (format memory blank_state)
after_format = format-IsFormatted memory memory-IsReliable blank_state refl

abbrev name : List ℕ
name = 97 ∷ 98 ∷ []

name-IsFileName : IsFileName name
unfolding c_str
name-IsFileName = record { terminated = refl; short = omega arith }

abbrev bytes : List ℕ
bytes = 10 ∷ 20 ∷ 30 ∷ []

abbrev after : Option ℕ × State memory
after = write_file memory name bytes 3 formatted.1

after_written : after.0 ≡ some 3
unfolding write_file store_claimed claim store format write_super write_inodes find_inode
    find_inode_from alloc_inode alloc_inode_from alloc_slot mark_slots first_unmarked clipped
after_written = refl

-- What memory may hold after a restart.
abbrev restarted : State memory
restarted = record {
  behind_super = [];
  super = fresh_super;
  inodes = [];
  fs_ready = false;
  disk = after.1.disk;
}

abbrev buffer : List ℕ
buffer = 0 ∷ 0 ∷ 0 ∷ 0 ∷ []

read-init-write_example :
    ((init memory restarted).0 ≡ true)
    × (3 ≡ clipped 3)
    × (read_file memory name buffer 4 (init memory restarted).1
        ≡ (some (clip 4 3), take (clip 4 3) bytes ++ drop (clip 4 3) buffer))
read-init-write_example =
    read-init-write memory memory-IsReliable name bytes buffer 3 3 4 formatted.1 restarted
      name-IsFileName after_format.valid after_format.ready (omega arith) after_written refl refl
      (omega arith)

abbrev entry : Inode
entry = new_inode name 5

entry-IsSized : IsSized entry
entry-IsSized = new_inode-IsSized name 5 (omega arith)

decode-encode_inode_example : decode_inode (encode_inode entry ++ bytes) ≡ entry
decode-encode_inode_example = decode-encode_inode entry bytes entry-IsSized

slot_one : alloc_slot (record no_inode { used = 1 } ∷ []) ≡ some 1
unfolding alloc_slot mark_slots first_unmarked
slot_one = refl

-- A file `ab` is there while one named `c` is written.
two_names : Path (List ℕ) name (99 ∷ []) → ⊥
two_names e = cc

other-IsFileName : IsFileName (99 ∷ [])
unfolding c_str
other-IsFileName = record { terminated = refl; short = omega arith }

after-IsWritten :
    (i : ℕ) × (3 ≡ clipped 3) × IsWritten memory memory-IsReliable name bytes 3 after.1 i
after-IsWritten =
    write_file-IsWritten memory memory-IsReliable name bytes 3 3 formatted.1 name-IsFileName
      after_format.valid after_format.ready after_written

read-write_other_example :
    read_file memory name buffer 4 (write_file memory (99 ∷ []) (7 ∷ []) 1 after.1).1
    ≡ read_file memory name buffer 4 after.1
read-write_other_example =
    read-write_other memory memory-IsReliable name (99 ∷ []) (7 ∷ []) buffer 1 4 after.1 two_names
      other-IsFileName after-IsWritten.2.valid
