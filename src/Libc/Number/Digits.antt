-- ===== src/Libc/Number/Digits.antt =====
-- The decimal text of an unsigned number: its bytes are digits, and it has few of them.
use mathlib.Core.List.{reverse, reverse-cons}
use native.Mathlib.Nat.{pow-suc}
use mathlib.Core.Bool.{true}
use stellares_os.Common.{
  ℕ, zero, suc, ◌/◌, ◌^◌, ◌≤◌, ◌<◌, ◌≡◌, ◌≢◌, ◌∙◌, ap, List, [], ◌∷◌, arith, length, length-append,
  All,
}
use stellares_os.Libc.Number.{digits_rev, is_digit}
use stellares_os.Libc.Number.Decimal.{reverse-IsDigit, digits_rev-IsDigit}

length-digits_rev : (f k u : ℕ) → u < 10 ^ k → length (digits_rev f 10 u) ≤ k
unfolding digits_rev
length-digits_rev zero k u h = omega arith
length-digits_rev (suc f) zero u h = ground arith
length-digits_rev (suc f) (suc k) u h = ground (arith, pow-suc 10 k, length-digits_rev f k (u / 10))

length-reverse : (s : List ℕ) → length (reverse s) ≡ length s
length-reverse [] = omega arith
length-reverse (c ∷ s) =
    ap length (reverse-cons c s)
    ∙ omega (arith, length-append (reverse s) (c ∷ []), length-reverse s)

-- A 32-bit number has ten digits at most.
pub length-decimal : (u : ℕ) → u < 2 ^ 32 → length (reverse (digits_rev 32 10 u)) ≤ 10
length-decimal u h =
    omega (arith, length-reverse (digits_rev 32 10 u), length-digits_rev 32 10 u (omega arith))

pub decimal-ne-nil : (u : ℕ) → u ≢ 0 → reverse (digits_rev 32 10 u) ≢ []
unfolding digits_rev
decimal-ne-nil u h e = ground (arith, length-reverse (digits_rev 32 10 u), ap length e)

digit_range : (s : List ℕ) → All (λ c. is_digit c ≡ true) s → All (λ c. (48 ≤ c) × (c ≤ 57)) s
unfolding is_digit
digit_range [] h = tt
digit_range (c ∷ s) h = (ground (arith, h.0), digit_range s h.1)

pub decimal-digits : (u : ℕ) → All (λ c. (48 ≤ c) × (c ≤ 57)) (reverse (digits_rev 32 10 u))
decimal-digits u = digit_range _ (reverse-IsDigit _ (digits_rev-IsDigit 32 u))
