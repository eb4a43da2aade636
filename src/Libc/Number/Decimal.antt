-- ===== src/Libc/Number/Decimal.antt =====
-- Printing a number in base 10 and reading it back.
use mathlib.Core.List.{reverse, reverse-cons}
use native.Mathlib.Nat.{pow-suc}
use stellares_os.Common.{
  ℕ, zero, suc, ◌+◌, ◌-◌, ◌*◌, ◌/◌, ◌%◌, ◌^◌, ◌≤◌, ◌<◌, ◌≡◌, refl, true, List, [], ◌∷◌, ◌++◌, arith,
  ◌==◌, All, inl, inr, Bool-cases,
}
use stellares_os.Libc.Number.{
  dig, digits_rev, negate, itoa, is_digit, skip_spaces, digits_value, signed_value, atoi,
}

-- The number that reversed digits stand for.
pub rev_value : List ℕ → ℕ
rev_value [] = 0
rev_value (c ∷ s) = (c - 48) + 10 * rev_value s

abbrev pub IsDigit : ℕ → Type 0
IsDigit c = is_digit c ≡ true

dig-IsDigit : (k : ℕ) → k < 10 → (is_digit (dig k) ≡ true) × (dig k - 48 ≡ k)
unfolding dig is_digit
dig-IsDigit k h = (ground arith, ground arith)

pub digits_rev-IsDigit : (f u : ℕ) → All IsDigit (digits_rev f 10 u)
unfolding digits_rev
digits_rev-IsDigit zero u = tt
digits_rev-IsDigit (suc f) u = elim (Bool-cases (u == 0)) [
  | inl e ↦ rw e tt
  | inr e ↦ rw e ((dig-IsDigit (u % 10) (omega arith)).0, digits_rev-IsDigit f (u / 10))
]

-- One digit for each bit is more than enough.
rev_value-digits_rev : (f u : ℕ) → u < 2 ^ f → rev_value (digits_rev f 10 u) ≡ u
unfolding digits_rev rev_value
rev_value-digits_rev zero u h = omega arith
rev_value-digits_rev (suc f) u h =
    ground (arith, pow-suc 2 f, dig-IsDigit (u % 10), rev_value-digits_rev f (u / 10))

digits_value-snoc :
    (r : ℕ) (s : List ℕ) (c : ℕ)
    → All IsDigit s
    → is_digit c ≡ true
    → digits_value r (s ++ (c ∷ [])) ≡ (digits_value r s * 10 + (c - 48)) % 2 ^ 32
unfolding digits_value
digits_value-snoc r [] c h e = rw e
digits_value-snoc r (x ∷ s) c h e =
    rw h.0 (digits_value-snoc ((r * 10 + (x - 48)) % 2 ^ 32) s c h.1 e)

All-snoc : (s : List ℕ) (c : ℕ) → All IsDigit s → IsDigit c → All IsDigit (s ++ (c ∷ []))
All-snoc [] c h e = (e, tt)
All-snoc (x ∷ s) c h e = (h.0, All-snoc s c h.1 e)

pub reverse-IsDigit : (s : List ℕ) → All IsDigit s → All IsDigit (reverse s)
reverse-IsDigit [] h = h
reverse-IsDigit (c ∷ s) h =
    rw (reverse-cons c s) (All-snoc (reverse s) c (reverse-IsDigit s h.1) h.0)

digits_value-reverse :
    (s : List ℕ) → All IsDigit s → digits_value 0 (reverse s) ≡ rev_value s % 2 ^ 32
unfolding rev_value digits_value
digits_value-reverse [] h = refl
digits_value-reverse (c ∷ s) h =
    rw
      (
        reverse-cons c s,
        digits_value-snoc 0 (reverse s) c (reverse-IsDigit s h.1) h.0,
        digits_value-reverse s h.1,
      )
      (omega arith)

-- A text of digits has no spaces and no sign.
pub atoi-digits : (s : List ℕ) → All IsDigit s → atoi s ≡ digits_value 0 s
unfolding atoi skip_spaces signed_value
atoi-digits [] h = refl
atoi-digits (c ∷ s) h = ground (arith, digit_bounds c h.0)
  where
    digit_bounds : (x : ℕ) → IsDigit x → (48 ≤ x) × (x ≤ 57)
    digit_bounds x e = unfold is_digit in (ground arith, ground arith)

-- The digits that `itoa` prints for `u` read back as `u`, for every `unsigned`.
pub atoi-digits_rev : (u : ℕ) → u < 2 ^ 32 → atoi (reverse (digits_rev 32 10 u)) ≡ u
atoi-digits_rev u h =
    rw
      (
        atoi-digits _ (reverse-IsDigit _ (digits_rev-IsDigit 32 u)),
        digits_value-reverse _ (digits_rev-IsDigit 32 u),
        rev_value-digits_rev 32 u h,
      )
      (omega arith)

negate-negate : (v : ℕ) → v < 2 ^ 32 → negate (negate v) ≡ v
unfolding negate
negate-negate v h = omega arith

atoi-minus : (s : List ℕ) → atoi (45 ∷ s) ≡ negate (digits_value 0 s)
unfolding atoi skip_spaces signed_value
atoi-minus s = refl

atoi-negative : (v : ℕ) → v < 2 ^ 32 → atoi (45 ∷ reverse (digits_rev 32 10 (negate v))) ≡ v
atoi-negative v h =
    rw
      (
        atoi-minus (reverse (digits_rev 32 10 (negate v))),
        ← atoi-digits _ (reverse-IsDigit _ (digits_rev-IsDigit 32 (negate v))),
        atoi-digits_rev (negate v) (negate-lt v),
      )
      (negate-negate v h)
  where
    negate-lt : (n : ℕ) → negate n < 2 ^ 32
    negate-lt n = unfold negate in omega arith

pub atoi-zero : atoi (48 ∷ []) ≡ 0
unfolding atoi skip_spaces signed_value digits_value is_digit
atoi-zero = refl

-- `atoi` undoes `itoa` in base 10, for every `int`, negative ones included.
pub atoi-itoa : (v : ℕ) → v < 2 ^ 32 → atoi (itoa v 10) ≡ v
unfolding itoa
atoi-itoa v h = ground (arith, atoi-zero, atoi-negative v h, atoi-digits_rev v h)
