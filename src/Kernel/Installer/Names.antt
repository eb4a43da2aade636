-- ===== src/Kernel/Installer/Names.antt =====
-- The user's name that kernel/installer.c takes, whatever is typed.
use stellares_os.Common.{
  ℕ, zero, suc, ◌<◌, ◌≡◌, ◌≢◌, refl, ap, sym, ◌∙◌, Bool, true, false, none, some, Option, List, [],
  ◌∷◌, arith, if◌then◌else◌, length, All, codes, ◌==◌, subst, Option-cases, Bool-cases, inl, inr,
}
use stellares_os.Libc.Str.{c_str, strlen, strcpy}
use stellares_os.Libc.Str.Copy.{strlen-c_str, c_str-strcpy}
use stellares_os.Kernel.Installer.{read_field, or_default, all_chars, user_char, ask_user}
use stellares_os.Kernel.Installer.Fields.{IsField, read_field-IsField, by_test}
use stellares_os.Kernel.Installer.Accounts.{IsName}
use stellares_os.Libc.Str.Copy.{length-strcpy}

-- A property of the value, if there is one.
abbrev pub Gives {ℓ κ} : {A : Type ℓ} → (A → Type κ) → Option A → Type κ
Gives P none = Unit
Gives P (some a) = P a

pub Gives-some {ℓ κ} :
    {A : Type ℓ} (P : A → Type κ) (o : Option A) (a : A) → Gives P o → o ≡ some a → P a
Gives-some P o a g e = subst (Gives P) e g

pub all_chars_sound : (p : ℕ → Bool) (s : List ℕ) → all_chars p s ≡ true → All (λ c. p c ≡ true) s
unfolding all_chars
all_chars_sound p [] h = tt
all_chars_sound p (c ∷ s) h = (ground (arith, h), all_chars_sound p s (ground (arith, h)))

-- The name as the array holds it.
record IsUser (user : List ℕ) : Type 0 where
  size : length user ≡ 32
  below : strlen user < 30
  present : c_str user ≢ []

stella-text : c_str (codes "stella") ≡ codes "stella"
unfolding c_str
stella-text = refl

stella-copied :
    (buf : List ℕ) → length buf ≡ 32 → c_str (strcpy buf (codes "stella")) ≡ codes "stella"
stella-copied buf l =
    c_str-strcpy buf (codes "stella")
      (subst (λ t. length t < length buf) (sym stella-text) (omega (arith, l)))
    ∙ stella-text

stella-IsUser : (buf : List ℕ) → length buf ≡ 32 → IsUser (strcpy buf (codes "stella"))
stella-IsUser buf l =
    let e = stella-copied buf l in
    record {
      size = length-strcpy buf (codes "stella") ∙ l;
      below = omega (arith, strlen-c_str (strcpy buf (codes "stella")), ap length e);
      present = λ n. stella-ne (sym e ∙ n);
    }
  where
    stella-ne : codes "stella" ≢ []
    stella-ne n = cc

or_default-IsUser :
    (buf : List ℕ) → length buf ≡ 32 → strlen buf < 30 → IsUser (or_default (codes "stella") buf)
unfolding or_default
or_default-IsUser buf l m = elim (Bool-cases (strlen buf == 0)) [
  | inl e ↦ rw e (stella-IsUser buf l)
  | inr e ↦
      rw e (record {
        size = l;
        below = m;
        present = λ n. ground (arith, strlen-c_str buf, ap length n);
      })
]

entered-IsUser :
    (entered : Bool) (buf : List ℕ)
    → length buf ≡ 32
    → (entered ≡ true → strlen buf < 30)
    → IsUser (or_default (codes "stella") (if entered then buf else strcpy buf (codes "stella")))
entered-IsUser true buf l m = or_default-IsUser buf l (m refl)
entered-IsUser false buf l m =
    let u = stella-IsUser buf l in or_default-IsUser (strcpy buf (codes "stella")) u.size u.below

-- What `ask_user` gives.
abbrev pub IsAsked : List ℕ × List ℕ → Type 0
IsAsked (user, rest) = IsName (c_str user) × (length user ≡ 32)

pub ask_user-IsAsked :
    (f : ℕ) (user keys : List ℕ)
    → length user ≡ 32
    → strlen user < 30
    → Gives IsAsked (ask_user f user keys)
unfolding ask_user
ask_user-IsAsked zero user keys l m = tt
ask_user-IsAsked (suc f) user keys l m = elim (Option-cases (read_field 30 user keys)) [
  | inl e ↦ rw (e, ask_user) tt
  | inr ((entered, buf, rest), e) ↦
      let r : IsField 30 32 (length keys) (some (entered, buf, rest)) =
        subst (IsField 30 32 (length keys)) e (
          subst (λ n. IsField 30 n (length keys) (read_field 30 user keys)) l
            (read_field-IsField 30 user keys m)) in
      let user' =
        or_default (codes "stella") (if entered then buf else strcpy buf (codes "stella")) in
      let u = entered-IsUser entered buf r.0 r.1 in
      rw (e, ask_user)
        (by_test (Gives IsAsked) (all_chars user_char (c_str user')) (some (user', rest))
          (ask_user f user' rest)
          (λ good. (
            record {
              chars = all_chars_sound user_char (c_str user') good;
              present = u.present;
              short = omega (arith, u.below, strlen-c_str user');
            },
            u.size,
          ))
          (λ bad. ask_user-IsAsked f user' rest u.size u.below))
]
