-- ===== src/Libc/Str/Tests.antt =====
-- libc/string.c on concrete buffers.

use stellares_os.Common.{ℕ, ◌≡◌, refl, List, [], ◌∷◌, ◌++◌, arith, take, drop}
use stellares_os.Libc.Str.{c_str, memset, strcpy, strncpy}
use stellares_os.Libc.Str.Copy.{strncpy_long, c_str-strcpy}

abbrev field : List ℕ
field = 7 ∷ 7 ∷ 7 ∷ 7 ∷ 7 ∷ 0 ∷ []

abbrev name : List ℕ
name = 97 ∷ 98 ∷ 0 ∷ 99 ∷ []

abbrev greeting : List ℕ
greeting = 104 ∷ 105 ∷ 0 ∷ 0 ∷ 0 ∷ 0 ∷ []

-- Four bytes are written where the count is three.
strncpy_three : strncpy field name 3 ≡ 97 ∷ 98 ∷ 0 ∷ 0 ∷ 7 ∷ 0 ∷ []
unfolding strncpy memset
strncpy_three = refl

strncpy_long_example : strncpy field name 2 ≡ take 2 (c_str name) ++ drop 2 field
unfolding c_str
strncpy_long_example = strncpy_long field name 2 (omega arith) (omega arith)

c_str-strcpy_example : c_str (strcpy field name) ≡ c_str name
unfolding c_str
c_str-strcpy_example = c_str-strcpy field name (omega arith)
