-- ===== src/Libc/Token.antt =====
-- `strtok` of libc/string.c. The static pointer `strtok_p` is explicit: the string that is left, or
-- `none` for the null pointer. Strings are their bytes without the terminator, so the terminator
-- that `strtok` writes over a delimiter is the end of the token that it returns.
pub mod Laws
pub mod Fields
mod Tests
use stellares_os.Common.{
  ℕ, zero, suc, Bool, false, Option, none, some, List, [], ◌∷◌, ◌==◌, ◌||◌, if◌then◌else◌, length,
}

-- `strchr(d, c)` as a test, for `c` not the terminator.
unfoldable pub is_delim : List ℕ → ℕ → Bool
is_delim [] c = false
is_delim (x ∷ d) c = x == c || is_delim d c

-- `while (*strtok_p && strchr(d, *strtok_p)) strtok_p++`
unfoldable pub skip_delims : List ℕ → List ℕ → List ℕ
skip_delims d [] = []
skip_delims d (c ∷ s) = if is_delim d c then skip_delims d s else c ∷ s

-- The second loop: the bytes that it passes, and what follows.
unfoldable pub token : List ℕ → List ℕ → List ℕ
token d [] = []
token d (c ∷ s) = if is_delim d c then [] else c ∷ token d s

unfoldable pub after_token : List ℕ → List ℕ → List ℕ
after_token d [] = []
after_token d (c ∷ s) = if is_delim d c then c ∷ s else after_token d s

-- The delimiter behind the token is overwritten and passed; at the end the pointer becomes null.
unfoldable pub advance : List ℕ → Option (List ℕ)
advance [] = none
advance (c ∷ s) = some s

unfoldable pub start : Option (List ℕ) → Option (List ℕ) → Option (List ℕ)
start (some s) p = some s
start none p = p

unfoldable pub take_token : List ℕ → List ℕ → Option (List ℕ) × Option (List ℕ)
unfolding advance
take_token d [] = (none, none)
take_token d (c ∷ s) = (some (token d (c ∷ s)), advance (after_token d (c ∷ s)))

-- One call: the argument, the delimiters and `strtok_p`; the token and the new `strtok_p`.
unfoldable pub strtok :
    Option (List ℕ) → List ℕ → Option (List ℕ) → Option (List ℕ) × Option (List ℕ)
unfolding start take_token
strtok s d p = elim (start s p) [ none ↦ (none, none) | some q ↦ take_token d (skip_delims d q) ]

-- `tok = strtok(s, d); while (tok) { ...; tok = strtok(NULL, d); }`: the tokens in order, with
-- fuel for the calls.
unfoldable pub tokens_from : ℕ → List ℕ → Option (List ℕ) × Option (List ℕ) → List (List ℕ)
tokens_from zero d r = []
tokens_from (suc f) d (none, p) = []
tokens_from (suc f) d (some t, p) = t ∷ tokens_from f d (strtok none d p)

-- A string of `n` bytes has at most `n` tokens.
unfoldable pub tokens : List ℕ → List ℕ → List (List ℕ)
tokens d s = tokens_from (suc (length s)) d (strtok (some s) d none)
