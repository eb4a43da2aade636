-- ===== src/Libc/Number/Tests.antt =====
-- The conversions on concrete numbers.
use stellares_os.Common.{◌-◌, ◌^◌, ◌≡◌, refl, [], ◌∷◌, arith}
use stellares_os.Libc.Number.{itoa, atoi, int_to_hex, hex_digits, dig}
use stellares_os.Libc.Number.Decimal.{atoi-itoa}

-- The number -42.
atoi-itoa_example : atoi (itoa (2 ^ 32 - 42) 10) ≡ 2 ^ 32 - 42
atoi-itoa_example = atoi-itoa (2 ^ 32 - 42) (omega arith)

hex_beef : int_to_hex 0xBEEF ≡ 48 ∷ 120 ∷ 48 ∷ 48 ∷ 48 ∷ 48 ∷ 66 ∷ 69 ∷ 69 ∷ 70 ∷ []
unfolding int_to_hex hex_digits dig
hex_beef = refl
