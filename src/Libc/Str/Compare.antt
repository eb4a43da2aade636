-- ===== src/Libc/Str/Compare.antt =====
-- What the comparing and searching routines of libc/string.c decide.
use mathlib.Core.Logic.{◌↔◌}
use stellares_os.Common.{ℕ, zero, suc, ◌≡◌, refl, List, [], ◌∷◌, arith, take}
use stellares_os.Common.Int.{pos}
use stellares_os.Libc.Str.{c_str, strcmp, strncmp}

strcmp_sound : (a b : List ℕ) → strcmp a b ≡ pos 0 → c_str a ≡ c_str b
unfolding strcmp c_str
strcmp_sound [] [] h = refl
strcmp_sound [] (y ∷ b) h = ground arith
strcmp_sound (x ∷ a) [] h = ground arith
strcmp_sound (x ∷ a) (y ∷ b) h = ground (arith, strcmp_sound a b)

strcmp_complete : (a b : List ℕ) → c_str a ≡ c_str b → strcmp a b ≡ pos 0
unfolding strcmp c_str
strcmp_complete [] [] h = refl
strcmp_complete [] (y ∷ b) h = ground arith
strcmp_complete (x ∷ a) [] h = ground arith
strcmp_complete (x ∷ a) (y ∷ b) h = ground (arith, strcmp_complete a b)

-- `strcmp` answers 0 on equal strings, and on those only.
pub strcmp_iff : (a b : List ℕ) → (strcmp a b ≡ pos 0) ↔ (c_str a ≡ c_str b)
strcmp_iff a b = (strcmp_sound a b, strcmp_complete a b)

strncmp_sound : (a b : List ℕ) (n : ℕ) → strncmp a b n ≡ pos 0 → take n (c_str a) ≡ take n (c_str b)
unfolding strncmp c_str
strncmp_sound a b zero h = refl
strncmp_sound [] [] (suc n) h = refl
strncmp_sound [] (y ∷ b) (suc n) h = ground arith
strncmp_sound (x ∷ a) [] (suc n) h = ground arith
strncmp_sound (x ∷ a) (y ∷ b) (suc n) h = ground (arith, strncmp_sound a b n)

strncmp_complete :
    (a b : List ℕ) (n : ℕ) → take n (c_str a) ≡ take n (c_str b) → strncmp a b n ≡ pos 0
unfolding strncmp c_str
strncmp_complete a b zero h = refl
strncmp_complete [] [] (suc n) h = refl
strncmp_complete [] (y ∷ b) (suc n) h = ground arith
strncmp_complete (x ∷ a) [] (suc n) h = ground arith
strncmp_complete (x ∷ a) (y ∷ b) (suc n) h = ground (arith, strncmp_complete a b n)

-- `strncmp` answers 0 exactly when the strings agree on their first `n` bytes.
pub strncmp_iff :
    (a b : List ℕ) (n : ℕ) → (strncmp a b n ≡ pos 0) ↔ (take n (c_str a) ≡ take n (c_str b))
strncmp_iff a b n = (strncmp_sound a b n, strncmp_complete a b n)
