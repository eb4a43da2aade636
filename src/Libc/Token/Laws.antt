-- ===== src/Libc/Token/Laws.antt =====
-- The tokens that repeated calls of `strtok` yield, against a splitting function.
use mathlib.Core.List.{append-nil, append_assoc}
use stellares_os.Common.{
  ℕ, zero, suc, ◌≤◌, ◌≡◌, ◌≢◌, refl, ◌∙◌, true, false, inl, inr, Option, none, some, List, [], ◌∷◌,
  ◌++◌, arith, if◌then◌else◌, length, All, Bool-cases,
}
use stellares_os.Libc.Token.{
  is_delim, skip_delims, token, after_token, advance, start, take_token, strtok, tokens_from,
  tokens,
}

-- A word that is under way, if it has any byte.
abbrev pub flush : List ℕ → List (List ℕ) → List (List ℕ)
flush [] r = r
flush (c ∷ w) r = (c ∷ w) ∷ r

-- The maximal runs of bytes that are no delimiters, left to right: `w` is the run so far.
unfoldable pub words : List ℕ → List ℕ → List ℕ → List (List ℕ)
words d w [] = flush w []
words d w (c ∷ s) = if is_delim d c then flush w (words d [] s) else words d (w ++ (c ∷ [])) s

words-skip_delims : (d s : List ℕ) → words d [] (skip_delims d s) ≡ words d [] s
unfolding words skip_delims
words-skip_delims d [] = refl
words-skip_delims d (c ∷ s) = ground (arith, words-skip_delims d s)

words-token : (d w s : List ℕ) → words d w s ≡ flush (w ++ token d s) (words d [] (after_token d s))
unfolding words token after_token
words-token d w [] = ground (arith, append-nil w)
words-token d w (c ∷ s) =
    ground
      (arith, append-nil w, words-token d (w ++ (c ∷ [])) s, append_assoc w (c ∷ []) (token d s))

-- What one call leaves to be split.
abbrev left_over : List ℕ → Option (List ℕ) → List (List ℕ)
left_over d none = []
left_over d (some s) = words d [] s

abbrev size : Option (List ℕ) → ℕ
size none = 0
size (some s) = suc (length s)

length-skip_delims : (d s : List ℕ) → length (skip_delims d s) ≤ length s
unfolding skip_delims
length-skip_delims d [] = omega arith
length-skip_delims d (c ∷ s) = ground (arith, length-skip_delims d s)

length-after_token : (d s : List ℕ) → length (after_token d s) ≤ length s
unfolding after_token
length-after_token d [] = omega arith
length-after_token d (c ∷ s) = ground (arith, length-after_token d s)

left_over-advance :
    (d s : List ℕ) → left_over d (advance (after_token d s)) ≡ words d [] (after_token d s)
unfolding advance words after_token
left_over-advance d [] = refl
left_over-advance d (c ∷ s) = ground (arith, left_over-advance d s)

size-advance : (s : List ℕ) → size (advance s) ≤ length s
unfolding advance
size-advance [] = omega arith
size-advance (c ∷ s) = omega arith

-- A call's result, and all that later calls will return.
abbrev emitted : List ℕ → Option (List ℕ) × Option (List ℕ) → List (List ℕ)
emitted d (none, p) = []
emitted d (some t, p) = t ∷ left_over d p

words-word :
    (d : List ℕ) (c : ℕ) (s : List ℕ)
    → is_delim d c ≡ false
    → words d [] (c ∷ s) ≡ token d (c ∷ s) ∷ left_over d (advance (after_token d (c ∷ s)))
unfolding token
words-word d c s e = ground (arith, words-token d [] (c ∷ s), left_over-advance d (c ∷ s))

-- The string in front of which `strtok` stands is split as it is without the leading delimiters.
record Splits (d q : List ℕ) (r : Option (List ℕ) × Option (List ℕ)) : Type 0 where
  same : words d [] q ≡ emitted d r
  less : size r.1 ≤ length q

take_token-Splits : (d q : List ℕ) → Splits d q (take_token d (skip_delims d q))
unfolding take_token words skip_delims
take_token-Splits d [] = record { same = refl; less = omega arith }
take_token-Splits d (c ∷ s) = elim (Bool-cases (is_delim d c)) [
  | inl e ↦
      rw (e, skip_delims)
        (record {
          same = rw (e) (take_token-Splits d s).same;
          less = omega (arith, (take_token-Splits d s).less);
        })
  | inr e ↦
      rw (e, skip_delims)
        (record {
          same = words-word d c s e;
          less = omega (arith, size-advance (after_token d (c ∷ s)), length-after_token d (c ∷ s));
        })
]

tokens_from-emitted :
    (f : ℕ) (d : List ℕ) (r : Option (List ℕ) × Option (List ℕ))
    → size r.1 ≤ f
    → tokens_from (suc f) d r ≡ emitted d r
unfolding tokens_from strtok start
tokens_from-emitted f d (none, p) h = refl
tokens_from-emitted zero d (some t, none) h = refl
tokens_from-emitted (suc f) d (some t, none) h = refl
tokens_from-emitted zero d (some t, some q) h = absurd (omega arith)
tokens_from-emitted (suc f) d (some t, some q) h =
    ground (arith, take_token-Splits d q, tokens_from-emitted f d (take_token d (skip_delims d q)))

-- The loop over `strtok` returns the maximal runs of bytes that are no delimiters, in order, for
-- every string and every set of delimiters; its fuel, a call for each byte and one more, suffices.
pub tokens-words : (d s : List ℕ) → tokens d s ≡ words d [] s
unfolding tokens strtok start
tokens-words d s = ground (
  arith,
  take_token-Splits d s,
  tokens_from-emitted (length s) d (take_token d (skip_delims d s)),
)

-- A byte that is no delimiter.
abbrev pub IsPlain : List ℕ → ℕ → Type 0
IsPlain d c = is_delim d c ≡ false

words-plain : (d w t s : List ℕ) → All (IsPlain d) t → words d w (t ++ s) ≡ words d (w ++ t) s
unfolding words
words-plain d w [] s h = rw append-nil
words-plain d w (c ∷ t) s h =
    rw (h.0, words-plain d (w ++ (c ∷ [])) t s h.1, append_assoc w (c ∷ []) t)

-- `/a/b/c`: each part behind a delimiter.
unfoldable pub join : ℕ → List (List ℕ) → List ℕ
join c [] = []
join c (p ∷ ps) = c ∷ (p ++ join c ps)

-- A part that `strtok` gives back: not empty, and without delimiters.
abbrev pub IsPart : List ℕ → List ℕ → Type 0
IsPart d p = (p ≢ []) × All (IsPlain d) p

flush-word : (t : List ℕ) (r : List (List ℕ)) → t ≢ [] → flush t r ≡ t ∷ r
flush-word [] r h = absurd (h refl)
flush-word (c ∷ t) r h = refl

words-join :
    (d : List ℕ) (c : ℕ) (t : List ℕ) (ps : List (List ℕ))
    → is_delim d c ≡ true
    → t ≢ []
    → All (IsPart d) ps
    → words d t (join c ps) ≡ t ∷ ps
unfolding words join
words-join d c t [] e ne h = flush-word t [] ne
words-join d c t (p ∷ ps) e ne h =
    rw (e, flush-word t _ ne, words-plain d [] p (join c ps) h.0.1, words-join d c p ps e h.0.0 h.1)

-- Parts that are not empty and hold no delimiter come back from the text that joins them.
pub tokens-join :
    (d : List ℕ) (c : ℕ) (ps : List (List ℕ))
    → is_delim d c ≡ true
    → All (IsPart d) ps
    → tokens d (join c ps) ≡ ps
unfolding words join
tokens-join d c [] e h = tokens-words d []
tokens-join d c (p ∷ ps) e h =
    tokens-words d (join c (p ∷ ps))
    ∙ rw (e, words-plain d [] p (join c ps) h.0.1) (words-join d c p ps e h.0.0 h.1)

-- The same without the delimiter in front.
pub tokens-join_tail :
    (d : List ℕ) (c : ℕ) (p : List ℕ) (ps : List (List ℕ))
    → is_delim d c ≡ true
    → IsPart d p
    → All (IsPart d) ps
    → tokens d (p ++ join c ps) ≡ p ∷ ps
tokens-join_tail d c p ps e h hs =
    tokens-words d (p ++ join c ps)
    ∙ words-plain d [] p (join c ps) h.1
    ∙ words-join d c p ps e h.0 hs
