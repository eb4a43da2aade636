-- ===== src/Libc/Str.antt =====
-- libc/string.c: memory and string routines over byte buffers. A buffer is the list of its bytes
-- from the pointer on; the end of the list reads as a terminator, and a write past it has no
-- effect, so the theorems ask for the room that they need.
pub mod Copy
pub mod Compare
pub mod Ends
mod Tests
use stellares_os.Common.{
  ℕ, zero, suc, ◌+◌, ◌-◌, ◌%◌, ◌≡◌, Bool, true, false, ◌&&◌, Option, none, some, List, [], ◌∷◌,
  ◌++◌, ◌==◌, if◌then◌else◌,
}
use stellares_os.Common.Int.{ℤ, pos, sub_ℕ}

-- The bytes up to the terminator: what a `char *` stands for.
unfoldable pub c_str : List ℕ → List ℕ
c_str [] = []
c_str (c ∷ s) = if c == 0 then [] else c ∷ c_str s

unfoldable pub memset : List ℕ → ℕ → ℕ → List ℕ
memset d c zero = d
memset [] c (suc n) = []
memset (x ∷ d) c (suc n) = (c % 256) ∷ memset d c n

unfoldable pub memcpy : List ℕ → List ℕ → ℕ → List ℕ
memcpy d s zero = d
memcpy [] s (suc n) = []
memcpy (x ∷ d) [] (suc n) = 0 ∷ memcpy d [] n
memcpy (x ∷ d) (c ∷ s) (suc n) = c ∷ memcpy d s n

-- Past its end a buffer reads as the terminator.
abbrev pub first : List ℕ → ℕ
first [] = 0
first (c ∷ s) = c

abbrev pub rest : List ℕ → List ℕ
rest [] = []
rest (c ∷ s) = s

-- `*p - *q` at the first difference.
pub memcmp : List ℕ → List ℕ → ℕ → ℤ
memcmp a b zero = pos 0
memcmp a b (suc n) =
    if first a == first b then memcmp (rest a) (rest b) n else sub_ℕ (first a) (first b)

unfoldable pub strlen : List ℕ → ℕ
strlen [] = 0
strlen (c ∷ s) = if c == 0 then 0 else suc (strlen s)

unfoldable pub strcpy : List ℕ → List ℕ → List ℕ
strcpy [] s = []
strcpy (x ∷ d) [] = 0 ∷ d
strcpy (x ∷ d) (c ∷ s) = if c == 0 then 0 ∷ d else c ∷ strcpy d s

-- The first loop leaves `n` as it was when it has copied the terminator: the second one then
-- clears `n` bytes more.
unfoldable pub strncpy : List ℕ → List ℕ → ℕ → List ℕ
unfolding memset
strncpy d s zero = d
strncpy [] s (suc n) = []
strncpy (x ∷ d) [] (suc n) = 0 ∷ memset d 0 (suc n)
strncpy (x ∷ d) (c ∷ s) (suc n) = if c == 0 then 0 ∷ memset d 0 (suc n) else c ∷ strncpy d s n

pub strcmp : List ℕ → List ℕ → ℤ
strcmp [] b = sub_ℕ 0 (first b)
strcmp (x ∷ a) b =
    if x == 0
    then sub_ℕ x (first b)
    else (if x == first b then strcmp a (rest b) else sub_ℕ x (first b))

pub strncmp : List ℕ → List ℕ → ℕ → ℤ
strncmp a b zero = pos 0
strncmp [] b (suc n) = sub_ℕ 0 (first b)
strncmp (x ∷ a) b (suc n) =
    if x == 0
    then sub_ℕ x (first b)
    else (if x == first b then strncmp a (rest b) n else sub_ℕ x (first b))

pub strcat : List ℕ → List ℕ → List ℕ
unfolding strcpy
strcat [] s = []
strcat (x ∷ d) s = if x == 0 then strcpy (x ∷ d) s else x ∷ strcat d s

-- The rest of the string from the first `c` on; the terminator is not found.
pub strchr : List ℕ → ℕ → Option (List ℕ)
strchr [] c = none
strchr (x ∷ s) c = if x == 0 then none else if x == c % 256 then some (x ∷ s) else strchr s c
