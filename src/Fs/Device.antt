-- ===== src/Fs/Device.antt =====
-- The interface between fs/diskfs.c and drivers/ata.c: a disk of 512-byte sectors, with the calls
-- `ata_detect`, `ata_read` and `ata_write`.
pub mod Memory
use stellares_os.Common.{ℕ, ◌+◌, ◌*◌, ◌≤◌, ◌≡◌, ◌⊎◌, Bool, true, Option, some, List, length}

-- `read` gives the bytes that go into the buffer, or `none` for a result other than ATA_OK; `write`
-- says whether its result is ATA_OK. A sector is counted from 0.
pub record BlockDevice : Type 1 where
  pub Disk : Type 0
  pub detect : Disk → Bool
  pub read : Disk → ℕ → ℕ → Option (List ℕ)
  pub write : Disk → ℕ → ℕ → List ℕ → Bool × Disk

-- A device that works: a transfer succeeds, what was written is read back, and sectors outside the
-- transfer keep their bytes.
pub record IsReliable (b : BlockDevice) : Type 0 where
  pub write_ok : (d : b.Disk) (lba n : ℕ) (bs : List ℕ) → (b.write d lba n bs).0 ≡ true
  pub read_same :
      (d : b.Disk) (lba n : ℕ) (bs : List ℕ)
      → length bs ≡ 512 * n
      → b.read (b.write d lba n bs).1 lba n ≡ some bs
  pub read_apart :
      (d : b.Disk) (lba n : ℕ) (bs : List ℕ) (lba' n' : ℕ)
      → (lba + n ≤ lba') ⊎ (lba' + n' ≤ lba)
      → b.read (b.write d lba n bs).1 lba' n' ≡ b.read d lba' n'
  pub detect_same :
      (d : b.Disk) (lba n : ℕ) (bs : List ℕ) → b.detect (b.write d lba n bs).1 ≡ b.detect d
