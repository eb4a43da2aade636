-- ===== src/Drivers/Ata/Waits.antt =====
-- How long drivers/ata.c waits, and how much it reads.
use stellares_os.Common.{
  ℕ, zero, suc, ◌*◌, ◌<◌, ◌≡◌, refl, ◌⊎◌, inl, inr, Bool, true, false, List, [], ◌++◌, arith,
  length, length-append, Bool-cases,
}
use stellares_os.Drivers.Ata.{
  Controller, Result, ok, err, timeout, no_disk, is_ok, bit, Ata, wait_bsy, ata_wait_bsy,
  ata_wait_drq, read_words, read_sectors, select, ata_read,
}

module _ (p : Controller) where
  -- The controller behind `n` reads of its status.
  pub polls : ℕ → p.State → p.State
  polls zero s = s
  polls (suc n) s = polls n (p.inb 0x1F7 s).1

  -- The status that the read behind `n` others finds has the bit of a busy drive.
  pub is_busy : ℕ → p.State → Bool
  unfolding polls
  is_busy n s = bit 7 (p.inb 0x1F7 (polls n s)).0

  -- The two ends of a wait with `t` for its counter: a read finds the drive ready, the first one to do so, or
  -- none does.
  pub data Waited (t : ℕ) (s : p.State) (r : Result × p.State) : Type 0 where
    ready :
        (k : ℕ)
        → k < t
        → ((j : ℕ) → j < k → is_busy j s ≡ true)
        → is_busy k s ≡ false
        → r ≡ (ok, polls (suc k) s)
        → Waited t s r
    gave_up : ((j : ℕ) → j < t → is_busy j s ≡ true) → r ≡ (timeout, polls (suc t) s) → Waited t s r

  earlier :
      (k : ℕ) (s : p.State)
      → is_busy 0 s ≡ true
      → ((j : ℕ) → j < k → is_busy j (p.inb 0x1F7 s).1 ≡ true)
      → (j : ℕ) → j < suc k
      → is_busy j s ≡ true
  unfolding is_busy polls
  earlier k s e f zero l = e
  earlier k s e f (suc j) l = f j (omega arith)

  longer :
      (t : ℕ) (s : p.State) (r : Result × p.State)
      → is_busy 0 s ≡ true
      → Waited t (p.inb 0x1F7 s).1 r
      → Waited (suc t) s r
  unfolding is_busy polls
  longer t s r e (ready k l f g q) = ready (suc k) (omega arith) (earlier k s e f) g q
  longer t s r e (gave_up f q) = gave_up (earlier t s e f) q

  wait_bsy-Waited : (t : ℕ) (s : p.State) → Waited t s (wait_bsy p t s)
  unfolding wait_bsy is_busy polls
  wait_bsy-Waited zero s = gave_up (λ j l. absurd (omega arith)) refl
  wait_bsy-Waited (suc t) s = elim (Bool-cases (is_busy 0 s)) [
    | inr e ↦ ready 0 (omega arith) (λ j l. absurd (omega arith)) e (rw (e, wait_bsy))
    | inl e ↦ rw (e, wait_bsy) (longer t s _ e (wait_bsy-Waited t (p.inb 0x1F7 s).1))
  ]

  -- The wait for a drive that is not busy ends, whatever the controller does: it reports success behind the
  -- first read of the status that finds it ready, if one of the first 100000 does, and else a timeout behind
  -- 100001 reads.
  pub ata_wait_bsy-Waited : (s : p.State) → Waited 100000 s (ata_wait_bsy p s)
  unfolding ata_wait_bsy
  ata_wait_bsy-Waited s = wait_bsy-Waited 100000 s

  length-read_words : (n : ℕ) (s : p.State) → length (read_words p n s).0 ≡ 2 * n
  unfolding read_words
  length-read_words zero s = refl
  length-read_words (suc n) s = omega (arith, length-read_words n (p.inw s).1)

  -- What a transfer of `k` sectors brings: all of them, or less with an error.
  pub data Brought (k : ℕ) (bs : List ℕ) : Result → Type 0 where
    all_of_it : length bs ≡ 512 * k → Brought k bs ok
    less : length bs < 512 * k → Brought k bs err
    nothing : bs ≡ [] → Brought k bs timeout
    no_drive : bs ≡ [] → Brought k bs no_disk

  sector_more :
      (k : ℕ) (bs more : List ℕ) (r : Result)
      → length bs ≡ 512
      → (r ≡ ok) ⊎ (r ≡ err)
      → Brought k more r
      → Brought (suc k) (bs ++ more) r
  sector_more k bs more r e q (all_of_it l) = all_of_it (omega (arith, length-append bs more))
  sector_more k bs more r e q (less l) = less (omega (arith, length-append bs more))
  sector_more k bs more r e (inl q) (nothing l) = cc q
  sector_more k bs more r e (inr q) (nothing l) = cc q
  sector_more k bs more r e (inl q) (no_drive l) = cc q
  sector_more k bs more r e (inr q) (no_drive l) = cc q

  read_sectors-Brought :
      (k : ℕ) (s : p.State)
      → let (r, bs, s') = read_sectors p k s in Brought k bs r × ((r ≡ ok) ⊎ (r ≡ err))
  unfolding read_sectors
  read_sectors-Brought zero s = (all_of_it refl, inl refl)
  read_sectors-Brought (suc k) s = elim (Bool-cases (is_ok (ata_wait_drq p s).0)) [
    | inr e ↦ rw (e, read_sectors) (less (omega arith), inr refl)
    | inl e ↦
        let s1 = (ata_wait_drq p s).1 in
        let words = read_words p 256 s1 in
        let rest = read_sectors p k words.1 in
        let ih = read_sectors-Brought k words.1 in
        rw (e, read_sectors)
          (sector_more k words.0 rest.1 rest.0 (length-read_words 256 s1) ih.1 ih.0, ih.1)
  ]

  -- A read of `count` sectors that reports success has brought 512 bytes for each of them; one that reports an
  -- error has brought less, and one that reports a timeout or no disk nothing.
  pub ata_read-Brought :
      (lba count : ℕ) (a : Ata p) → let (r, bs, a') = ata_read p lba count a in Brought count bs r
  unfolding ata_read
  ata_read-Brought lba count a = elim (Bool-cases a.disk_ok) [
    | inr d ↦ rw (d, ata_read) (no_drive refl)
    | inl d ↦ elim (Bool-cases (is_ok (ata_wait_bsy p a.ports).0)) [
      | inr e ↦ rw (d, e, ata_read) (nothing refl)
      | inl e ↦
          rw (d, e, ata_read)
            (read_sectors-Brought count (select p lba count 0x20 (ata_wait_bsy p a.ports).1)).0
    ]
  ]
