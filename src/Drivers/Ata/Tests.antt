-- ===== src/Drivers/Ata/Tests.antt =====
-- A controller that is busy for a while, and then has the word 513 for every read.
use stellares_os.Common.{ℕ, ◌-◌, ltb, if◌then◌else◌, true, replicate}
use stellares_os.Drivers.Ata.{Controller, Ata, ata_wait_bsy, ata_read}
use stellares_os.Drivers.Ata.Waits.{Waited, ata_wait_bsy-Waited, Brought, ata_read-Brought}

-- The state counts the polls that are left until the drive is ready, with data.
abbrev slow : Controller
slow = record {
  State = ℕ;
  inb = λ port s. (if ltb 0 s then 128 else 8, s - 1);
  inw = λ s. (513, s);
  outb = λ port v s. s;
  outw = λ w s. s;
}

ata_wait_bsy-Waited_example : Waited slow 100000 5 (ata_wait_bsy slow 5)
ata_wait_bsy-Waited_example = ata_wait_bsy-Waited slow 5

abbrev drive : Ata slow
drive = record { disk_ok = true; disk_sectors = 4096; disk_model = replicate 41 0; ports = 5 }

ata_read-Brought_example : let (r, bs, a') = ata_read slow 7 2 drive in Brought slow 2 bs r
ata_read-Brought_example = ata_read-Brought slow 7 2 drive
