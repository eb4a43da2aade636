-- ===== src/Drivers/Ata.antt =====
-- drivers/ata.c: the disk driver. The ports of the controller are an interface; a read of a port may change
-- the state of the controller. A sector is 512 bytes, moved as 256 words of 16 bits.
pub mod Waits
mod Tests
use stellares_os.Common.{
  ℕ, zero, suc, ◌+◌, ◌-◌, ◌*◌, ◌/◌, ◌%◌, ◌^◌, Bool, true, false, ◌&&◌, ◌||◌, not, List, [], ◌∷◌,
  ◌++◌, ◌==◌, if◌then◌else◌, length, take, drop, get_or,
}
use stellares_os.Libc.Str.{memcpy}

-- `inb`, `inw(ATA_DATA)`, `outb` and `outw(ATA_DATA, ...)`.
pub record Controller : Type 1 where
  pub State : Type 0
  pub inb : ℕ → State → ℕ × State
  pub inw : State → ℕ × State
  pub outb : ℕ → ℕ → State → State
  pub outw : ℕ → State → State

-- `ata_result_t`
pub data Result : Type 0 where
  ok err timeout no_disk : Result

abbrev pub is_ok : Result → Bool
is_ok ok = true
is_ok _ = false

-- Bit `k` of a byte.
abbrev pub bit : ℕ → ℕ → Bool
bit k v = v / 2 ^ k % 2 == 1

-- A byte and the one behind it change places; then blanks at the end become terminators.
pub swap_pairs : List ℕ → List ℕ
swap_pairs [] = []
swap_pairs (x ∷ []) = x ∷ []
swap_pairs (x ∷ y ∷ s) = y ∷ x ∷ swap_pairs s

abbrev only_blanks : List ℕ → Bool
only_blanks [] = true
only_blanks (c ∷ s) = c == 32 && only_blanks s

pub trim : List ℕ → List ℕ
trim [] = []
trim (c ∷ s) = (if only_blanks (c ∷ s) then 0 else c) ∷ trim s

-- For the first `l` bytes, `l` even.
pub fix_str : List ℕ → ℕ → List ℕ
unfolding swap_pairs trim
fix_str s l = trim (swap_pairs (take l s)) ++ drop l s

module _ (p : Controller) where
  open p use {State, inb, inw, outb, outw}

  -- The static variables, and the controller.
  pub record Ata : Type 0 where
    pub disk_ok : Bool
    pub disk_sectors : ℕ
    pub disk_model : List ℕ
    pub ports : State

  -- `while ((inb(ATA_STATUS) & ATA_SR_BSY) && t--); return t > 0 ? ATA_OK : ATA_TIMEOUT`
  pub wait_bsy : ℕ → State → Result × State
  wait_bsy zero s = (timeout, (inb 0x1F7 s).1)
  wait_bsy (suc t) s =
      let (v, s') = inb 0x1F7 s in elim (bit 7 v) [ false ↦ (ok, s') | true ↦ wait_bsy t s' ]

  pub wait_drq : ℕ → State → Result × State
  wait_drq zero s = (timeout, s)
  wait_drq (suc t) s =
      let (v, s') = inb 0x1F7 s in
      elim (bit 0 v) [
        | true ↦ (err, s')
        | false ↦ elim (bit 3 v) [ true ↦ (ok, s') | false ↦ wait_drq t s' ]
      ]

  pub ata_wait_bsy : State → Result × State
  unfolding wait_bsy
  ata_wait_bsy s = wait_bsy 100000 s

  pub ata_wait_drq : State → Result × State
  unfolding wait_drq
  ata_wait_drq s = wait_drq 100000 s

  -- `n` words from the data port, as bytes, the lower one first.
  pub read_words : ℕ → State → List ℕ × State
  read_words zero s = ([], s)
  read_words (suc n) s =
      let (w, s') = inw s in let (bs, s'') = read_words n s' in (w % 256 ∷ w / 256 % 256 ∷ bs, s'')

  -- The first `2 * n` bytes of a buffer to the data port.
  pub write_words : ℕ → List ℕ → State → State
  write_words zero bs s = s
  write_words (suc n) bs s =
      write_words n (drop 2 bs) (outw (get_or bs 0 0 + 256 * get_or bs 1 0) s)

  -- The sectors that are left: what came into the buffer before the first wait that fails.
  pub read_sectors : ℕ → State → Result × List ℕ × State
  read_sectors zero s = (ok, [], s)
  read_sectors (suc k) s =
      let (r, s1) = ata_wait_drq s in
      elim (is_ok r) [
        | false ↦ (err, [], s1)
        | true ↦
            let (bs, s2) = read_words 256 s1 in
            let (r', more, s3) = read_sectors k s2 in (r', bs ++ more, s3)
      ]

  pub write_sectors : ℕ → List ℕ → State → Result × State
  write_sectors zero bs s = (ok, s)
  write_sectors (suc k) bs s =
      let (r, s1) = ata_wait_drq s in
      elim (is_ok r) [
        | false ↦ (err, s1)
        | true ↦ write_sectors k (drop 512 bs) (write_words 256 bs s1)
      ]

  -- The registers of a transfer, and its command.
  pub select : ℕ → ℕ → ℕ → State → State
  select lba count command s =
      let s1 = outb 0x1F6 (224 + lba / 2 ^ 24 % 16) s in
      let s2 = outb 0x1F2 count s1 in
      let s3 = outb 0x1F3 (lba % 256) s2 in
      let s4 = outb 0x1F4 (lba / 256 % 256) s3 in
      let s5 = outb 0x1F5 (lba / 65536 % 256) s4 in outb 0x1F7 command s5

  -- The result, the bytes that came into the buffer, from its start on, and the driver.
  pub ata_read : ℕ → ℕ → Ata → Result × List ℕ × Ata
  unfolding ata_wait_bsy ata_wait_drq select
  ata_read lba count a =
      if not a.disk_ok
      then (no_disk, [], a)
      else (let (r, s) = ata_wait_bsy a.ports in
          elim (is_ok r) [
            | false ↦ (timeout, [], record a { ports = s })
            | true ↦
                let (r', bs, s') = read_sectors count (select lba count 0x20 s) in
                (r', bs, record a { ports = s' })
          ])

  -- What the wait behind the flush reports is not looked at.
  pub ata_write : ℕ → ℕ → List ℕ → Ata → Result × Ata
  ata_write lba count bs a =
      if not a.disk_ok
      then (no_disk, a)
      else (let (r, s) = ata_wait_bsy a.ports in
          elim (is_ok r) [
            | false ↦ (timeout, record a { ports = s })
            | true ↦
                let (r', s') = write_sectors count bs (select lba count 0x30 s) in
                elim (is_ok r') [
                  | false ↦ (err, record a { ports = s' })
                  | true ↦ (ok, record a { ports = (ata_wait_bsy (outb 0x1F7 0xE7 s')).1 })
                ]
          ])

  -- `ata_init` from the identification on: the words 27 to 46 are the model, 60 and 61 the sectors.
  pub identified : Ata → Ata
  unfolding fix_str
  identified a =
      let (id, s) = read_words 256 a.ports in
      let word : ℕ → ℕ = λ i. get_or id (2 * i) 0 + 256 * get_or id (2 * i + 1) 0 in
      record a {
        disk_ok = true;
        disk_sectors = word 61 * 65536 + word 60;
        disk_model = fix_str (memcpy a.disk_model (drop 54 id) 40) 40;
        ports = s;
      }

  -- `if (inb(ATA_LBA_MID) || inb(ATA_LBA_HI)) return; if (ata_wait_drq() != ATA_OK) return;`
  pub identify : Ata → Ata
  identify a =
      let (mid, s1) = inb 0x1F4 a.ports in
      if not (mid == 0)
      then record a { ports = s1 }
      else (let (high, s2) = inb 0x1F5 s1 in
          if not (high == 0)
          then record a { ports = s2 }
          else (let (r, s3) = ata_wait_drq s2 in
              if is_ok r then identified (record a { ports = s3 }) else record a { ports = s3 }))

  pub ata_init : Ata → Ata
  ata_init a =
      let (r, s1) = ata_wait_bsy (outb 0x3F6 0 (outb 0x3F6 4 a.ports)) in
      let off = record a { disk_ok = false } in
      if not (is_ok r)
      then record off { ports = s1 }
      else (let s2 = outb 0x1F3 0 (outb 0x1F2 0 (outb 0x1F6 0xA0 s1)) in
          let (v, s3) = inb 0x1F7 (outb 0x1F7 0xEC (outb 0x1F5 0 (outb 0x1F4 0 s2))) in
          if v == 0
          then record off { ports = s3 }
          else (let (r', s4) = ata_wait_bsy s3 in
              if is_ok r' then identify (record off { ports = s4 }) else record off { ports = s4 }))
