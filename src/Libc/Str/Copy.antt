-- ===== src/Libc/Str/Copy.antt =====
-- What the copying routines of libc/string.c leave in the destination.
use stellares_os.Common.{
  ℕ, zero, suc, ◌+◌, ◌-◌, ◌≤◌, ◌<◌, ◌≡◌, refl, ap, ◌∙◌, List, [], ◌∷◌, ◌++◌, arith, length, take,
  drop, replicate, get_or,
}
use stellares_os.Libc.Str.{c_str, memset, memcpy, strlen, strcpy, strncpy, strcat}

pub strlen-c_str : (s : List ℕ) → strlen s ≡ length (c_str s)
unfolding strlen c_str
strlen-c_str [] = refl
strlen-c_str (c ∷ s) = ground (arith, strlen-c_str s)

pub memset-replicate :
    (d : List ℕ) (n : ℕ) → n ≤ length d → memset d 0 n ≡ replicate n 0 ++ drop n d
unfolding memset
memset-replicate d zero h = refl
memset-replicate [] (suc n) h = absurd (omega arith)
memset-replicate (x ∷ d) (suc n) h = ap (◌∷◌ 0) (memset-replicate d n (omega arith))

pub memcpy-take :
    (d s : List ℕ) (n : ℕ) → n ≤ length d → n ≤ length s → memcpy d s n ≡ take n s ++ drop n d
unfolding memcpy
memcpy-take d s zero h k = refl
memcpy-take [] s (suc n) h k = absurd (omega arith)
memcpy-take (x ∷ d) [] (suc n) h k = absurd (omega arith)
memcpy-take (x ∷ d) (c ∷ s) (suc n) h k = ap (◌∷◌ c) (memcpy-take d s n (omega arith) (omega arith))

-- A source shorter than `n` is copied whole, and `n + 1` bytes of the destination are written: the
-- string, then zeros.
pub strncpy_short :
    (d s : List ℕ) (n : ℕ)
    → length (c_str s) < n
    → n < length d
    → strncpy d s n ≡ c_str s ++ (0 ∷ (replicate (n - length (c_str s)) 0 ++ drop (suc n) d))
unfolding strncpy c_str
strncpy_short d s zero h k = absurd (omega arith)
strncpy_short [] s (suc n) h k = absurd (omega arith)
strncpy_short (x ∷ d) [] (suc n) h k = ground (arith, memset-replicate d (suc n))
strncpy_short (x ∷ d) (c ∷ s) (suc n) h k =
    ground (arith, memset-replicate d (suc n), strncpy_short d s n)

-- A source of `n` bytes or more fills exactly `n` bytes, and no terminator is written.
pub strncpy_long :
    (d s : List ℕ) (n : ℕ)
    → n ≤ length (c_str s)
    → n ≤ length d
    → strncpy d s n ≡ take n (c_str s) ++ drop n d
unfolding strncpy c_str
strncpy_long d s zero h k = refl
strncpy_long [] s (suc n) h k = absurd (omega arith)
strncpy_long (x ∷ d) [] (suc n) h k = absurd (omega arith)
strncpy_long (x ∷ d) (c ∷ s) (suc n) h k = ground (arith, strncpy_long d s n)

-- `strncpy(field, s, n)` on a field with a terminator at `n` stores the first `n` bytes of the
-- string, which is how the file systems and the users' table keep their names.
pub c_str-strncpy :
    (d s : List ℕ) (n : ℕ)
    → n < length d
    → get_or d n 0 ≡ 0
    → c_str (strncpy d s n) ≡ take n (c_str s)
unfolding strncpy c_str
c_str-strncpy [] s n h k = absurd (omega arith)
c_str-strncpy (x ∷ d) s zero h k = ground arith
c_str-strncpy (x ∷ d) [] (suc n) h k = refl
c_str-strncpy (x ∷ d) (c ∷ s) (suc n) h k = ground (arith, c_str-strncpy d s n)

-- A copy that fits reads back as its source.
pub c_str-strcpy : (d s : List ℕ) → length (c_str s) < length d → c_str (strcpy d s) ≡ c_str s
unfolding strcpy c_str
c_str-strcpy [] s h = absurd (omega arith)
c_str-strcpy (x ∷ d) [] h = refl
c_str-strcpy (x ∷ d) (c ∷ s) h = ground (arith, c_str-strcpy d s)

-- Appending, where the destination has room for both strings.
pub c_str-strcat :
    (d s : List ℕ)
    → length (c_str d) + length (c_str s) < length d
    → c_str (strcat d s) ≡ c_str d ++ c_str s
unfolding strcat c_str
c_str-strcat [] s h = absurd (omega arith)
c_str-strcat (x ∷ d) s h = ground (arith, c_str-strcpy (x ∷ d) s, c_str-strcat d s)

pub length-memcpy : (d s : List ℕ) (n : ℕ) → length (memcpy d s n) ≡ length d
unfolding memcpy
length-memcpy d s zero = refl
length-memcpy [] s (suc n) = refl
length-memcpy (x ∷ d) [] (suc n) = ap suc (length-memcpy d [] n)
length-memcpy (x ∷ d) (c ∷ s) (suc n) = ap suc (length-memcpy d s n)

length-memset : (d : List ℕ) (c n : ℕ) → length (memset d c n) ≡ length d
unfolding memset
length-memset d c zero = refl
length-memset [] c (suc n) = refl
length-memset (x ∷ d) c (suc n) = ap suc (length-memset d c n)

pub length-strncpy : (d s : List ℕ) (n : ℕ) → length (strncpy d s n) ≡ length d
unfolding strncpy
length-strncpy d s zero = refl
length-strncpy [] s (suc n) = refl
length-strncpy (x ∷ d) [] (suc n) = ap suc (length-memset d 0 (suc n))
length-strncpy (x ∷ d) (c ∷ s) (suc n) =
    ground (arith, length-memset d 0 (suc n), length-strncpy d s n)

take-take-append :
    (m n : ℕ) (xs ys : List ℕ) → m ≤ n → n ≤ length xs → take m (take n xs ++ ys) ≡ take m xs
take-take-append zero n xs ys h k = refl
take-take-append (suc m) zero xs ys h k = absurd (omega arith)
take-take-append (suc m) (suc n) [] ys h k = absurd (omega arith)
take-take-append (suc m) (suc n) (x ∷ xs) ys h k =
    ap (◌∷◌ x) (take-take-append m n xs ys (omega arith) (omega arith))

-- Bytes that went into a larger array come out of it.
pub memcpy-memcpy :
    (out bytes buf : List ℕ) (m n : ℕ)
    → m ≤ n
    → n ≤ length bytes
    → n ≤ length buf
    → m ≤ length out
    → memcpy out (memcpy bytes buf n) m ≡ take m buf ++ drop m out
memcpy-memcpy out bytes buf m n mn nb nbuf mo =
    memcpy-take out (memcpy bytes buf n) m mo (omega (arith, length-memcpy bytes buf n))
    ∙ rw (memcpy-take bytes buf n nb nbuf, take-take-append m n buf (drop n bytes) mn nbuf)

pub length-strcpy : (d s : List ℕ) → length (strcpy d s) ≡ length d
unfolding strcpy
length-strcpy [] s = refl
length-strcpy (x ∷ d) [] = refl
length-strcpy (x ∷ d) (c ∷ s) = ground (arith, length-strcpy d s)
