-- ===== src/Libc/Token/Fields.antt =====
-- One call of `strtok` on a string whose first field is known.
use stellares_os.Common.{ℕ, ◌≡◌, refl, true, none, some, Option, List, [], ◌∷◌, ◌++◌, arith, All}
use stellares_os.Libc.Token.{
  is_delim, skip_delims, token, after_token, advance, start, take_token, strtok,
}
use stellares_os.Libc.Token.Laws.{IsPlain, IsPart}

token_lem :
    (d t s : List ℕ) (c : ℕ)
    → is_delim d c ≡ true
    → All (IsPlain d) t
    → (token d (t ++ (c ∷ s)) ≡ t) × (after_token d (t ++ (c ∷ s)) ≡ c ∷ s)
unfolding token after_token
token_lem d [] s c e h = (rw e, rw e)
token_lem d (x ∷ t) s c e h = ground (arith, h.0, token_lem d t s c e h.1)

token_end : (d t : List ℕ) → All (IsPlain d) t → (token d t ≡ t) × (after_token d t ≡ [])
unfolding token after_token
token_end d [] h = (refl, refl)
token_end d (c ∷ t) h = ground (arith, h.0, token_end d t h.1)

-- A field in front of a delimiter: the string behind it is left.
pub take_token-field :
    (d t s : List ℕ) (c : ℕ)
    → is_delim d c ≡ true
    → IsPart d t
    → take_token d (skip_delims d (t ++ (c ∷ s))) ≡ (some t, some s)
unfolding take_token skip_delims advance
take_token-field d [] s c e h = absurd (h.0 refl)
take_token-field d (x ∷ t) s c e h =
    let l = token_lem d (x ∷ t) s c e h.1 in rw (h.1.0, l.0, l.1, take_token)

-- The last field: nothing is left.
pub take_token-last : (d t : List ℕ) → IsPart d t → take_token d (skip_delims d t) ≡ (some t, none)
unfolding take_token skip_delims advance
take_token-last d [] h = absurd (h.0 refl)
take_token-last d (x ∷ t) h = let l = token_end d (x ∷ t) h.1 in rw (h.1.0, l.0, l.1, take_token)

-- The first call, and a later one, on a string that starts with a field.
pub strtok-field :
    (d t s : List ℕ) (c : ℕ) (p : Option (List ℕ))
    → is_delim d c ≡ true
    → IsPart d t
    → (strtok (some (t ++ (c ∷ s))) d p ≡ (some t, some s))
      × (strtok none d (some (t ++ (c ∷ s))) ≡ (some t, some s))
unfolding strtok start
strtok-field d t s c p e h = (take_token-field d t s c e h, take_token-field d t s c e h)

pub strtok-last : (d t : List ℕ) → IsPart d t → strtok none d (some t) ≡ (some t, none)
unfolding strtok start
strtok-last d t h = take_token-last d t h
