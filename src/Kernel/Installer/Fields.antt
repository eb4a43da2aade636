-- ===== src/Kernel/Installer/Fields.antt =====
-- The fields of kernel/installer.c: what a person types into them, and what they can hold.
use mathlib.Core.List.{append_assoc}
use stellares_os.Common.{
  ℕ, zero, suc, ◌+◌, ◌-◌, ◌≤◌, ◌<◌, ◌≡◌, refl, ap, ◌∙◌, Bool, true, false, ◌&&◌, ◌||◌, Option, none,
  some, List, [], ◌∷◌, ◌++◌, arith, ltb, leb, ◌==◌, if◌then◌else◌, set, length, drop, length-set,
  get_or, All,
}
use stellares_os.Libc.Str.{c_str, strlen}
use stellares_os.Libc.Str.Ends.{strlen_bound}
use stellares_os.Kernel.Login.Typed.{IsTyped}
use stellares_os.Kernel.Installer.{field_keys, read_field}

set-at_end :
    (p : List ℕ) (x c : ℕ) (r : List ℕ) → set (p ++ (x ∷ r)) (length p) c ≡ (p ++ (c ∷ [])) ++ r
set-at_end [] x c r = refl
set-at_end (y ∷ p) x c r = ap (◌∷◌ y) (set-at_end p x c r)

length-snoc : (p : List ℕ) (c : ℕ) → length (p ++ (c ∷ [])) ≡ length p + 1
length-snoc [] c = omega arith
length-snoc (y ∷ p) c = omega (arith, length-snoc p c)

-- One key that is taken.
field_keys-typed :
    (maxlen len c : ℕ) (buf keys : List ℕ)
    → IsTyped c
    → len + 1 < maxlen
    → field_keys maxlen buf len (c ∷ keys) ≡ field_keys maxlen (set buf len c) (len + 1) keys
unfolding field_keys
field_keys-typed maxlen len c buf keys h l = ground arith

field_keys-enter :
    (maxlen len : ℕ) (buf keys : List ℕ)
    → field_keys maxlen buf len (10 ∷ keys) ≡ some (true, set buf len 0, keys)
unfolding field_keys
field_keys-enter maxlen len buf keys = refl

-- A text that is typed behind what the field holds, up to the line break.
field_keys-text :
    (maxlen : ℕ) (p text junk keys : List ℕ)
    → All IsTyped text
    → length p + length text < maxlen
    → length text < length junk
    → field_keys maxlen (p ++ junk) (length p) (text ++ (10 ∷ keys))
      ≡ some (true, p ++ (text ++ (0 ∷ drop (suc (length text)) junk)), keys)
field_keys-text maxlen p [] [] keys h l m = absurd (omega arith)
field_keys-text maxlen p [] (x ∷ junk) keys h l m = rw (
  field_keys-enter maxlen (length p) (p ++ (x ∷ junk)) keys,
  set-at_end p x 0 junk,
  append_assoc p (0 ∷ []) junk,
)
field_keys-text maxlen p (c ∷ text) [] keys h l m = absurd (omega arith)
field_keys-text maxlen p (c ∷ text) (x ∷ junk) keys h l m =
    rw
      (
        field_keys-typed maxlen (length p) c (p ++ (x ∷ junk)) (text ++ (10 ∷ keys)) h.0
            (omega arith),
        set-at_end p x c junk,
        ← length-snoc p c,
        field_keys-text maxlen (p ++ (c ∷ [])) text junk keys h.1 (omega (arith, length-snoc p c))
            (omega arith),
      )
      (ap (λ z. some (true, z, keys)) (append_assoc p (c ∷ []) _))

-- The string in front of a terminator.
c_str-ended : (text r : List ℕ) → All IsTyped text → c_str (text ++ (0 ∷ r)) ≡ text
unfolding c_str
c_str-ended [] r h = refl
c_str-ended (c ∷ text) r h = ground (arith, c_str-ended text r h.1)

-- What `read_field` gives for a text that is typed into an empty field.
pub typed_buf : List ℕ → List ℕ → List ℕ
typed_buf junk text = text ++ (0 ∷ drop (suc (length text)) (0 ∷ junk))

pub read_field-text :
    (maxlen : ℕ) (text junk keys : List ℕ)
    → All IsTyped text
    → length text < maxlen
    → length text ≤ length junk
    → read_field maxlen (0 ∷ junk) (text ++ (10 ∷ keys)) ≡ some (true, typed_buf junk text, keys)
unfolding read_field typed_buf strlen
read_field-text maxlen text junk keys h l m =
    field_keys-text maxlen [] text (0 ∷ junk) keys h (omega (arith, l)) (omega arith)

pub c_str-typed_buf : (junk text : List ℕ) → All IsTyped text → c_str (typed_buf junk text) ≡ text
unfolding typed_buf
c_str-typed_buf junk text h = c_str-ended text _ h

c_str-set_end : (s : List ℕ) → c_str (set s (strlen s) 0) ≡ c_str s
unfolding c_str strlen
c_str-set_end [] = refl
c_str-set_end (c ∷ s) = ground (arith, c_str-set_end s)

-- The line break alone leaves the text as it is.
pub read_field-enter :
    (maxlen : ℕ) (buf keys : List ℕ)
    → (buf' : List ℕ) × (read_field maxlen buf (10 ∷ keys) ≡ some (true, buf', keys))
      × (c_str buf' ≡ c_str buf)
unfolding read_field
read_field-enter maxlen buf keys =
    (set buf (strlen buf) 0, field_keys-enter maxlen (strlen buf) buf keys, c_str-set_end buf)

-- What a field can hold behind `read_field`: its array is as long as before, a line break leaves a string
-- shorter than the limit, and at least one key is used.
abbrev pub IsField : ℕ → ℕ → ℕ → Option (Bool × List ℕ × List ℕ) → Type 0
IsField maxlen size count none = Unit {0}
IsField maxlen size count (some (entered, buf, rest)) =
    (length buf ≡ size) × (entered ≡ true → strlen buf < maxlen) × (length rest < count)

pub by_test {ℓ κ} :
    {A : Type ℓ} (P : A → Type κ) (t : Bool) (x y : A)
    → (t ≡ true → P x)
    → (t ≡ false → P y)
    → P (if t then x else y)
by_test P true x y f g = f refl
by_test P false x y f g = g refl

get_or-set_zero : (s : List ℕ) (i : ℕ) → get_or (set s i 0) i 0 ≡ 0
get_or-set_zero [] i = refl
get_or-set_zero (x ∷ s) zero = refl
get_or-set_zero (x ∷ s) (suc i) = get_or-set_zero s i

IsField-more :
    (maxlen n m k k' : ℕ) (r : Option (Bool × List ℕ × List ℕ))
    → n ≡ m
    → k ≤ k'
    → IsField maxlen n k r
    → IsField maxlen m k' r
IsField-more maxlen n m k k' none e l f = tt
IsField-more maxlen n m k k' (some (x, buf, rest)) e l f = (f.0 ∙ e, f.1, omega arith)

field_keys-IsField :
    (maxlen len : ℕ) (buf keys : List ℕ)
    → len < maxlen
    → IsField maxlen (length buf) (length keys) (field_keys maxlen buf len keys)
unfolding field_keys
field_keys-IsField maxlen len buf [] l = tt
field_keys-IsField maxlen len buf (c ∷ keys) l =
    let P = IsField maxlen (length buf) (suc (length keys)) in
    let back = if ltb 0 len then set buf (len - 1) 0 else buf in
    let shorter = field_keys maxlen back (len - 1) keys in
    let longer = field_keys maxlen (set buf len c) (len + 1) keys in
    let same = field_keys maxlen buf len keys in
    let taken = (leb 32 c && ltb c 127) && ltb len (maxlen - 1) in
    by_test P (c == 10 || c == 13) _ _
      (λ e. (
        length-set buf len 0,
        (λ _. let z = strlen_bound (set buf len 0) len (get_or-set_zero buf len) in omega arith),
        omega arith,
      ))
      (λ e1.
        by_test P (c == 27) _ _ (λ e. (refl, (λ f. absurd (ff f)), omega arith))
          (λ e2.
            by_test P (c == 8) shorter (if taken then longer else same)
              (λ e.
                IsField-more maxlen (length back) (length buf) (length keys) (suc (length keys))
                  shorter (back_length (ltb 0 len)) (omega arith)
                  (field_keys-IsField maxlen (len - 1) back keys (omega arith)))
              (λ e3.
                by_test P taken longer same
                  (λ e.
                    IsField-more maxlen (length (set buf len c)) (length buf) (length keys)
                      (suc (length keys)) longer (length-set buf len c) (omega arith)
                      (field_keys-IsField maxlen (len + 1) (set buf len c) keys (ground arith)))
                  (λ e.
                    IsField-more maxlen (length buf) (length buf) (length keys) (suc (length keys))
                      same refl (omega arith) (field_keys-IsField maxlen len buf keys l)))))
  where
    ff : Path Bool false true → ⊥
    ff f = cc

    back_length : (t : Bool) → length (if t then set buf (len - 1) 0 else buf) ≡ length buf
    back_length true = length-set buf (len - 1) 0
    back_length false = refl

pub read_field-IsField :
    (maxlen : ℕ) (buf keys : List ℕ)
    → strlen buf < maxlen
    → IsField maxlen (length buf) (length keys) (read_field maxlen buf keys)
unfolding read_field
read_field-IsField maxlen buf keys l = field_keys-IsField maxlen (strlen buf) buf keys l
