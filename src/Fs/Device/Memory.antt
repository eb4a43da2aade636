-- ===== src/Fs/Device/Memory.antt =====
-- A device that works: an array of bytes.
use stellares_os.Common.{
  ℕ, zero, suc, ◌+◌, ◌-◌, ◌*◌, ◌<◌, ◌≤◌, ◌≡◌, refl, ap, sym, ◌∙◌, ◌⊎◌, inl, inr, true, ◌&&◌, some,
  List, [], ◌∷◌, arith, length, get_or, ltb, leb, if◌then◌else◌,
}
use stellares_os.Fs.Device.{BlockDevice, IsReliable}

-- The bytes from address `a` on.
pub bytes_from : (ℕ → ℕ) → ℕ → ℕ → List ℕ
bytes_from d a zero = []
bytes_from d a (suc n) = d a ∷ bytes_from d (a + 1) n

abbrev pub overwrite : (ℕ → ℕ) → ℕ → ℕ → List ℕ → ℕ → ℕ
overwrite d lba n bs a =
    if leb (512 * lba) a && ltb a (512 * (lba + n)) then get_or bs (a - 512 * lba) 0 else d a

abbrev pub memory : BlockDevice
memory = record {
  Disk = ℕ → ℕ;
  detect = λ d. true;
  read = λ d lba n. some (bytes_from d (512 * lba) (512 * n));
  write = λ d lba n bs. (true, overwrite d lba n bs);
}

bytes_from-get_or :
    (d : ℕ → ℕ) (a : ℕ) (bs : List ℕ)
    → ((k : ℕ) → k < length bs → d (a + k) ≡ get_or bs k 0)
    → bytes_from d a (length bs) ≡ bs
unfolding bytes_from
bytes_from-get_or d a [] h = refl
bytes_from-get_or d a (x ∷ bs) h =
    let first : d a ≡ x = ap d plus_zero ∙ h 0 (omega arith) in
    rw first
      (ap (◌∷◌ x) (bytes_from-get_or d (a + 1) bs λ k l. ap d (next k) ∙ h (suc k) (omega arith)))
  where
    plus_zero : a ≡ a + 0
    plus_zero = omega arith

    next : (k : ℕ) → a + 1 + k ≡ a + suc k
    next k = omega arith

bytes_from-same :
    (d e : ℕ → ℕ) (a n : ℕ)
    → ((k : ℕ) → k < n → d (a + k) ≡ e (a + k))
    → bytes_from d a n ≡ bytes_from e a n
unfolding bytes_from
bytes_from-same d e a zero h = refl
bytes_from-same d e a (suc n) h =
    let x : d a ≡ e a = rw plus_zero (h 0 (omega arith)) in
    rw x
      (ap (◌∷◌ (e a)) (bytes_from-same d e (a + 1) n λ k l. rw (next k) (h (suc k) (omega arith))))
  where
    plus_zero : a ≡ a + 0
    plus_zero = omega arith

    next : (k : ℕ) → a + 1 + k ≡ a + suc k
    next k = omega arith

overwrite_in :
    (d : ℕ → ℕ) (lba n : ℕ) (bs : List ℕ) (k : ℕ)
    → k < 512 * n
    → overwrite d lba n bs (512 * lba + k) ≡ get_or bs k 0
overwrite_in d lba n bs k h =
    let e : 512 * lba + k - 512 * lba ≡ k = omega arith in ground (arith, ap (λ j. get_or bs j 0) e)

overwrite_out :
    (d : ℕ → ℕ) (lba n : ℕ) (bs : List ℕ) (a : ℕ)
    → (a < 512 * lba) ⊎ (512 * (lba + n) ≤ a)
    → overwrite d lba n bs a ≡ d a
overwrite_out d lba n bs a h = ground arith

memory_same :
    (d : ℕ → ℕ) (lba n : ℕ) (bs : List ℕ)
    → length bs ≡ 512 * n
    → bytes_from (overwrite d lba n bs) (512 * lba) (512 * n) ≡ bs
memory_same d lba n bs h =
    ap (bytes_from (overwrite d lba n bs) (512 * lba)) (sym h)
    ∙ bytes_from-get_or (overwrite d lba n bs) (512 * lba) bs
        λ k l. overwrite_in d lba n bs k (omega arith)

memory_apart :
    (d : ℕ → ℕ) (lba n : ℕ) (bs : List ℕ) (lba' n' : ℕ)
    → (lba + n ≤ lba') ⊎ (lba' + n' ≤ lba)
    → bytes_from (overwrite d lba n bs) (512 * lba') (512 * n')
      ≡ bytes_from d (512 * lba') (512 * n')
memory_apart d lba n bs lba' n' h =
    bytes_from-same (overwrite d lba n bs) d (512 * lba') (512 * n')
      λ k l. overwrite_out d lba n bs (512 * lba' + k) (outside k l h)
  where
    outside :
        (k : ℕ)
        → k < 512 * n'
        → (lba + n ≤ lba') ⊎ (lba' + n' ≤ lba)
        → (512 * lba' + k < 512 * lba) ⊎ (512 * (lba + n) ≤ 512 * lba' + k)
    outside k l (inl e) = inr (omega arith)
    outside k l (inr e) = inl (omega arith)

pub memory-IsReliable : IsReliable memory
memory-IsReliable = record {
  write_ok = λ d lba n bs. refl;
  read_same = λ d lba n bs h. ap some (memory_same d lba n bs h);
  read_apart = λ d lba n bs lba' n' h. ap some (memory_apart d lba n bs lba' n' h);
  detect_same = λ d lba n bs. refl;
}
