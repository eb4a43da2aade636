-- ===== src/Libc/Number.antt =====
-- The number conversions of libc/string.c. An `int` is its bit pattern, below 2 ^ 32, and `int`
-- arithmetic wraps round; a text is its bytes without the terminator.
pub mod Decimal
pub mod Digits
mod Tests
use mathlib.Core.List.{reverse}
use stellares_os.Common.{
  ℕ, zero, suc, ◌+◌, ◌-◌, ◌*◌, ◌/◌, ◌%◌, ◌^◌, Bool, ◌&&◌, List, [], ◌∷◌, ◌++◌, ltb, leb, ◌==◌,
  if◌then◌else◌,
}

-- `dig[k]` of "0123456789ABCDEF"
pub dig : ℕ → ℕ
dig k = if ltb k 10 then 48 + k else 55 + k

-- `tmp` after `while (u) { tmp[i++] = dig[u % base]; u /= base; }`, with fuel for the rounds.
pub digits_rev : ℕ → ℕ → ℕ → List ℕ
unfolding dig
digits_rev zero base u = []
digits_rev (suc f) base u =
    let more = dig (u % base) ∷ digits_rev f base (u / base) in if u == 0 then [] else more

-- `-v` of an `unsigned`
pub negate : ℕ → ℕ
negate v = (2 ^ 32 - v) % 2 ^ 32

pub itoa : ℕ → ℕ → List ℕ
itoa v base =
    if v == 0
    then 48 ∷ []
    else if base == 10 && leb (2 ^ 31) v
    then 45 ∷ reverse (digits_rev 32 base (negate v))
    else reverse (digits_rev 32 base v)

-- `for (i = 7; i >= 0; i--) b[2 + (7 - i)] = h[(v >> (i * 4)) & 0xF]`, by the count of rounds left.
pub hex_digits : ℕ → ℕ → List ℕ
unfolding dig
hex_digits zero v = []
hex_digits (suc i) v = dig (v / 2 ^ (i * 4) % 16) ∷ hex_digits i v

pub int_to_hex : ℕ → List ℕ
unfolding hex_digits
int_to_hex v = 48 ∷ 120 ∷ hex_digits 8 v

pub is_digit : ℕ → Bool
is_digit c = leb 48 c && leb c 57

pub skip_spaces : List ℕ → List ℕ
skip_spaces [] = []
skip_spaces (c ∷ s) = if c == 32 then skip_spaces s else c ∷ s

-- `while (*s >= '0' && *s <= '9') r = r * 10 + (*s++ - '0')`
pub digits_value : ℕ → List ℕ → ℕ
unfolding is_digit
digits_value r [] = r
digits_value r (c ∷ s) = if is_digit c then digits_value ((r * 10 + (c - 48)) % 2 ^ 32) s else r

pub signed_value : List ℕ → ℕ
unfolding digits_value negate
signed_value [] = 0
signed_value (c ∷ s) =
    if c == 45
    then negate (digits_value 0 s)
    else if c == 43
    then digits_value 0 s
    else digits_value 0 (c ∷ s)

pub atoi : List ℕ → ℕ
unfolding signed_value skip_spaces
atoi s = signed_value (skip_spaces s)
