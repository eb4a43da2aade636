-- ===== src/Kernel/Installer/Typed.antt =====
-- What a person types into kernel/installer.c, from the first screen to the login behind it.
use stellares_os.Common.{
  ℕ, Bool, suc, ◌≤◌, ◌<◌, ◌≡◌, ◌≢◌, refl, ap, ◌∙◌, true, false, some, List, [], ◌∷◌, ◌++◌, arith,
  length, All, drop, codes, str_eq_refl, ltb, ◌==◌,
}
use stellares_os.Libc.Str.{c_str, strlen, strcpy}
use stellares_os.Libc.Str.Copy.{strlen-c_str}
use stellares_os.Kernel.Installer.{
  or_default, all_chars, host_char, user_char, screen_hostname, ask_user, ask_password,
}
use stellares_os.Kernel.Installer.Fields.{
  typed_buf, read_field-text, read_field-enter, c_str-typed_buf,
}
use stellares_os.Kernel.Login.Typed.{IsTyped}
use stellares_os.Kernel.Installer.Accounts.{IsName}

-- A password that the installer takes.
pub record IsPassword (password : List ℕ) : Type 0 where
  pub chars : All IsTyped password
  pub least : 4 ≤ length password
  pub most : length password ≤ 61

-- A key on the first screen, the line break for the default host name, the name, the password twice, and the
-- line break that confirms.
unfoldable pub typed_keys : ℕ → List ℕ → List ℕ → List ℕ → List ℕ
typed_keys k name password rest =
    k ∷ 10 ∷ (name ++ (10 ∷ (password ++ (10 ∷ (password ++ (10 ∷ 10 ∷ rest))))))

pub strlen-ne : (buf text : List ℕ) → c_str buf ≡ text → text ≢ [] → (strlen buf == 0) ≡ false
strlen-ne buf [] e ne = absurd (ne refl)
strlen-ne buf (c ∷ text) e ne = ground (arith, strlen-c_str buf, ap length e)

or_default-keep :
    (fallback buf text : List ℕ) → c_str buf ≡ text → text ≢ [] → or_default fallback buf ≡ buf
unfolding or_default
or_default-keep fallback buf text e ne = rw (strlen-ne buf text e ne)

pub all_chars-All : (p : ℕ → Bool) (s : List ℕ) → All (λ c. p c ≡ true) s → all_chars p s ≡ true
unfolding all_chars
all_chars-All p [] h = refl
all_chars-All p (c ∷ s) h = rw (h.0, all_chars-All p s h.1)

pub strcpy-nil : (d : List ℕ) → 0 < length d → strcpy d [] ≡ 0 ∷ drop 1 d
unfolding strcpy
strcpy-nil [] h = absurd (omega arith)
strcpy-nil (x ∷ d) h = refl

pub length-drop_one : (d : List ℕ) (n : ℕ) → length d ≡ suc n → length (drop 1 d) ≡ n
length-drop_one [] n h = absurd (omega arith)
length-drop_one (x ∷ d) n h = omega arith

pub name-IsTyped : (s : List ℕ) → All (λ c. user_char c ≡ true) s → All IsTyped s
unfolding user_char
name-IsTyped [] h = tt
name-IsTyped (c ∷ s) h = ((ground (arith, h.0), ground (arith, h.0)), name-IsTyped s h.1)

default_host : all_chars host_char (codes "stellares") ≡ true
unfolding all_chars host_char
default_host = refl

-- The line break alone takes the default host name.
pub screen_hostname-default :
    (f : ℕ) (host keys : List ℕ)
    → c_str host ≡ codes "stellares"
    → (host' : List ℕ) × (screen_hostname (suc f) host (10 ∷ keys) ≡ some (host', keys))
unfolding screen_hostname
screen_hostname-default f host keys e =
    let (buf, r, same) = read_field-enter 30 host keys in
    let k = or_default-keep (codes "stellares") buf (codes "stellares") (same ∙ e) (λ n. cc) in
    (buf, rw (r, screen_hostname, k, same, e, default_host) refl)

pub ask_user-typed :
    (f : ℕ) (name junk keys : List ℕ)
    → IsName name
    → length junk ≡ 31
    → ask_user (suc f) (0 ∷ junk) (name ++ (10 ∷ keys)) ≡ some (typed_buf junk name, keys)
unfolding ask_user
ask_user-typed f name junk keys n l =
    let t = name-IsTyped name n.chars in
    let r = read_field-text 30 name junk keys t (omega (arith, n.short)) (omega (arith, n.short)) in
    let c = c_str-typed_buf junk name t in
    rw
      (
        r,
        ask_user,
        or_default-keep (codes "stella") (typed_buf junk name) name c n.present,
        c,
        all_chars-All user_char name n.chars,
      )
      refl

pub ask_password-typed :
    (f : ℕ) (word old pass2 keys : List ℕ)
    → IsPassword word
    → length old ≡ 64
    → length pass2 ≡ 64
    → ask_password (suc f) old pass2 (word ++ (10 ∷ (word ++ (10 ∷ keys))))
      ≡ some (typed_buf (drop 1 old) word, keys)
unfolding ask_password
ask_password-typed f word old pass2 keys p l l2 =
    let j = length-drop_one old 63 l in
    let j2 = length-drop_one pass2 63 l2 in
    let c = c_str-typed_buf (drop 1 old) word p.chars in
    let long : ltb (length word) 4 ≡ false = ground (arith, p.least) in
    rw
      (
        ask_password,
        strcpy-nil old (omega arith),
        read_field-text 62 word (drop 1 old) (word ++ (10 ∷ keys)) p.chars (omega (arith, p.most))
            (omega (arith, p.most)),
        strcpy-nil pass2 (omega arith),
        read_field-text 62 word (drop 1 pass2) keys p.chars (omega (arith, p.most))
            (omega (arith, p.most)),
        strlen-c_str (typed_buf (drop 1 old) word),
        c,
        c_str-typed_buf (drop 1 pass2) word p.chars,
        long,
        str_eq_refl word,
      )
      refl
