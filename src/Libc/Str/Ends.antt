-- ===== src/Libc/Str/Ends.antt =====
-- Terminators of libc/string.c: a buffer that ends with one keeps it.
use stellares_os.Common.{
  ℕ, zero, suc, ◌≤◌, ◌<◌, ◌≡◌, refl, List, [], ◌∷◌, arith, get_or, ◌==◌, Bool-cases, inl, inr,
}
use stellares_os.Libc.Str.{memset, strncpy, strlen}

-- A zero at index `n` bounds the length of the string.
pub strlen_bound : (s : List ℕ) (n : ℕ) → get_or s n 0 ≡ 0 → strlen s ≤ n
unfolding strlen
strlen_bound [] n h = omega arith
strlen_bound (c ∷ s) zero h = ground arith
strlen_bound (c ∷ s) (suc n) h = ground (arith, strlen_bound s n h)

memset_zero : (d : List ℕ) (n i : ℕ) → i < n → get_or (memset d 0 n) i 0 ≡ 0
unfolding memset
memset_zero d zero i h = absurd (omega arith)
memset_zero [] (suc n) i h = refl
memset_zero (x ∷ d) (suc n) zero h = refl
memset_zero (x ∷ d) (suc n) (suc i) h = memset_zero d n i (omega arith)

-- A `strncpy` of `n` bytes leaves a zero at index `n`.
pub strncpy-end : (d s : List ℕ) (n : ℕ) → get_or d n 0 ≡ 0 → get_or (strncpy d s n) n 0 ≡ 0
unfolding strncpy
strncpy-end d s zero h = h
strncpy-end [] s (suc n) h = refl
strncpy-end (x ∷ d) [] (suc n) h = memset_zero d (suc n) n (omega arith)
strncpy-end (x ∷ d) (c ∷ s) (suc n) h = elim (Bool-cases (c == 0)) [
  | inl e ↦ rw (e, strncpy) (memset_zero d (suc n) n (omega arith))
  | inr e ↦ rw (e, strncpy) (strncpy-end d s n h)
]
