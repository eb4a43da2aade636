-- ===== src/Common/Text.antt =====
-- Strings as lists of bytes, and membership and distinctness of lists of numbers.
use mathlib.Core.Logic.{◌⊎◌, ◌≢◌, inl, inr}
use mathlib.Core.Path.{◌≡◌, refl}
use mathlib.Core.Bool.{Bool, true, false, ◌&&◌}
use mathlib.Core.List.{List, [], ◌∷◌, ◌++◌}
use Prim.Native.Nat.{ℕ}
use native.Mathlib.Omega.{arith}
use stellares_os.Common.Tests.{◌==◌, Bool-cases}

-- `strcmp(a, b) == 0` for strings given by their bytes.
unfoldable pub str_eq : List ℕ → List ℕ → Bool
str_eq [] [] = true
str_eq [] (y ∷ b) = false
str_eq (x ∷ a) [] = false
str_eq (x ∷ a) (y ∷ b) = x == y && str_eq a b

pub str_eq_sound : (a b : List ℕ) → str_eq a b ≡ true → a ≡ b
unfolding str_eq
str_eq_sound [] [] h = refl
str_eq_sound [] (y ∷ b) h = cc
str_eq_sound (x ∷ a) [] h = cc
str_eq_sound (x ∷ a) (y ∷ b) h = ground (arith, str_eq_sound a b)

pub str_eq_refl : (a : List ℕ) → str_eq a a ≡ true
unfolding str_eq
str_eq_refl [] = refl
str_eq_refl (x ∷ a) = ground (arith, str_eq_refl a)

pub str_eq_ne : (a b : List ℕ) → a ≢ b → str_eq a b ≡ false
str_eq_ne a b h = elim (Bool-cases (str_eq a b)) [
  | inl e ↦ absurd (h (str_eq_sound a b e))
  | inr e ↦ e
]

abbrev pub Has : ℕ → List ℕ → Type 0
Has c [] = ⊥
Has c (x ∷ xs) = (c ≡ x) ⊎ Has c xs

abbrev pub IsDistinct : List ℕ → Type 0
IsDistinct [] = Unit {0}
IsDistinct (x ∷ xs) = (¬ Has x xs) × IsDistinct xs

pub Has-snoc : (c n : ℕ) (xs : List ℕ) → Has c (xs ++ (n ∷ [])) → Has c xs ⊎ (c ≡ n)
Has-snoc c n [] (inl e) = inr e
Has-snoc c n [] (inr h) = absurd h
Has-snoc c n (x ∷ xs) (inl e) = inl (inl e)
Has-snoc c n (x ∷ xs) (inr h) = elim (Has-snoc c n xs h) [ inl k ↦ inl (inr k) | inr e ↦ inr e ]

pub IsDistinct-snoc :
    (n : ℕ) (xs : List ℕ) → IsDistinct xs → ¬ Has n xs → IsDistinct (xs ++ (n ∷ []))
IsDistinct-snoc n [] d h = ((λ k. k), tt)
IsDistinct-snoc n (x ∷ xs) d h = (fresh, IsDistinct-snoc n xs d.1 (λ k. h (inr k)))
  where
    fresh : ¬ Has x (xs ++ (n ∷ []))
    fresh k = elim (Has-snoc x n xs k) [ inl j ↦ d.0 j | inr e ↦ h (inl (sym' e)) ]
      where
        sym' : x ≡ n → n ≡ x
        sym' p = cc
