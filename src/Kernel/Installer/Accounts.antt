-- ===== src/Kernel/Installer/Accounts.antt =====
-- The account that kernel/installer.c makes, and the login of kernel/login.c behind it.
use mathlib.Core.List.{append_assoc}
use stellares_os.Common.{
  ℕ, ◌+◌, ◌*◌, ◌%◌, ◌^◌, ◌≤◌, ◌<◌, ◌≡◌, ◌≢◌, refl, sym, ◌∙◌, true, false, List, [], ◌∷◌, ◌++◌,
  arith, ◌==◌, length, length-append, All, codes, Bool, ◌&&◌, not, Bool-cases, inl, inr, ==_iff,
  ne-of-false, str_eq, str_eq_refl,
}
use stellares_os.Libc.Str.{c_str}
use stellares_os.Libc.Number.{atoi}
use stellares_os.Libc.Number.Decimal.{atoi-digits_rev, atoi-zero}
use stellares_os.Libc.Number.Digits.{length-decimal, decimal-ne-nil, decimal-digits}
use stellares_os.Fs.Disk.Table.{clipped}
use stellares_os.Fs.Disk.Files.{IsFileName}
use stellares_os.Kernel.Login.{User, hash_from, hash_pass}
use stellares_os.Kernel.Login.Lines.{
  All-append, IsInner, IsInnerText, IsLine, in_front, text_of, length-text_of,
}
use stellares_os.Kernel.Installer.{Config, hash_rest, hash_str, u32toa, user_char, passwd_text}

-- A user's name that the installer takes.
pub record IsName (name : List ℕ) : Type 0 where
  pub chars : All (λ c. user_char c ≡ true) name
  pub present : name ≢ []
  pub short : length name ≤ 29

hash_rest-eq : (h : ℕ) (s : List ℕ) → hash_rest h s ≡ hash_from h s
unfolding hash_rest hash_from
hash_rest-eq h [] = refl
hash_rest-eq h (c ∷ s) = hash_rest-eq ((h * 33 + c % 256) % 2 ^ 32) s

-- The installer and the login hash alike.
pub hash_str-eq : (s : List ℕ) → hash_str s ≡ hash_pass s
unfolding hash_str hash_pass
hash_str-eq s = hash_rest-eq 5381 s

hash_rest-lt : (h : ℕ) (s : List ℕ) → h < 2 ^ 32 → hash_rest h s < 2 ^ 32
unfolding hash_rest
hash_rest-lt h [] l = l
hash_rest-lt h (c ∷ s) l = hash_rest-lt ((h * 33 + c % 256) % 2 ^ 32) s (omega arith)

hash_str-lt : (s : List ℕ) → hash_str s < 2 ^ 32
unfolding hash_str
hash_str-lt s = hash_rest-lt 5381 s (omega arith)

digits-IsInner : (s : List ℕ) → All (λ c. (48 ≤ c) × (c ≤ 57)) s → All IsInner s
digits-IsInner [] h = tt
digits-IsInner (c ∷ s) h = (inner_digit c h.0, digits-IsInner s h.1)
  where
    inner_digit : (x : ℕ) → (48 ≤ x) × (x ≤ 57) → IsInner x
    inner_digit x k = ((λ e. omega arith), (λ e. omega arith), (λ e. omega arith))

abbrev no_marks : List ℕ → Bool
no_marks [] = true
no_marks (c ∷ s) = not (c == 0) && (not (c == 10) && (not (c == 58) && no_marks s))

no_marks_sound : (s : List ℕ) → no_marks s ≡ true → All IsInner s
no_marks_sound [] h = tt
no_marks_sound (c ∷ s) h = (
  ((λ e. ground (arith, h)), (λ e. ground (arith, h)), (λ e. ground (arith, h))),
  no_marks_sound s (ground (arith, h)),
)

-- The text of a hash is a field of the file that reads back as the hash.
pub record IsHashText (v : ℕ) (s : List ℕ) : Type 0 where
  pub inner : IsInnerText s
  pub size : length s ≤ 10
  pub value : atoi s ≡ v

u32toa-IsHashText : (v : ℕ) → v < 2 ^ 32 → IsHashText v (u32toa v)
unfolding u32toa
u32toa-IsHashText v l = elim (Bool-cases (v == 0)) [
  | inl e ↦ rw e record {
    inner = ((λ n. cc), no_marks_sound (48 ∷ []) refl);
    size = omega arith;
    value = atoi-zero ∙ sym ((==_iff v 0).0 e);
  }
  | inr e ↦ rw e record {
    inner = (decimal-ne-nil v (ne-of-false v 0 e), digits-IsInner _ (decimal-digits v));
    size = length-decimal v l;
    value = atoi-digits_rev v l;
  }
]

pub hash-IsHashText : (s : List ℕ) → IsHashText (hash_str s) (u32toa (hash_str s))
hash-IsHashText s = u32toa-IsHashText (hash_str s) (hash_str-lt s)

-- The two entries of the file.
abbrev pub root_user : User
root_user = record {
  name = codes "root";
  pass = u32toa (hash_str (codes "toor"));
  home = codes "/";
}

abbrev pub new_user : List ℕ → List ℕ → User
new_user name password = record {
  name = name;
  pass = u32toa (hash_str password);
  home = codes "/home/" ++ name;
}

name-IsInner : (s : List ℕ) → All (λ c. user_char c ≡ true) s → All IsInner s
unfolding user_char
name-IsInner [] h = tt
name-IsInner (c ∷ s) h = (
  ((λ e. ground (arith, h.0)), (λ e. ground (arith, h.0)), (λ e. ground (arith, h.0))),
  name-IsInner s h.1,
)

path-IsInner : (s : List ℕ) → All IsInner s → All IsInner (codes "/home/" ++ s)
path-IsInner s h = All-append IsInner (codes "/home/") s (no_marks_sound (codes "/home/") refl) h

pub root_user-IsLine : IsLine root_user
root_user-IsLine =
    let t = hash-IsHashText (codes "toor") in
    record {
      name_ok = ((λ e. cc), no_marks_sound (codes "root") refl);
      pass_ok = t.inner;
      home_ok = ((λ e. cc), no_marks_sound (codes "/") refl);
      name_fits = omega arith;
      pass_fits = omega (arith, t.size);
      home_fits = omega arith;
    }

pub new_user-IsLine : (name password : List ℕ) → IsName name → IsLine (new_user name password)
new_user-IsLine name password n =
    let t = hash-IsHashText password in
    record {
      name_ok = (n.present, name-IsInner name n.chars);
      pass_ok = t.inner;
      home_ok = ((λ e. cc), path-IsInner name (name-IsInner name n.chars));
      name_fits = omega (arith, n.short);
      pass_fits = omega (arith, t.size);
      home_fits = omega (arith, n.short);
    }

pub passwd_text-lines :
    (cfg : Config)
    → passwd_text cfg
      ≡ in_front root_user (in_front (new_user (c_str cfg.username) (c_str cfg.password)) [])
unfolding passwd_text
passwd_text-lines cfg = simp append_assoc

pub length-passwd :
    (name password : List ℕ)
    → IsName name
    → length (in_front root_user (in_front (new_user name password) [])) ≤ 511
length-passwd name password n =
    let r = hash-IsHashText (codes "toor") in
    let t = hash-IsHashText password in
    omega (
      arith,
      n.short,
      r.size,
      t.size,
      length-append (text_of root_user) (10 ∷ in_front (new_user name password) []),
      length-append (text_of (new_user name password)) (10 ∷ []),
      length-text_of root_user,
      length-text_of (new_user name password),
    )

pub clipped-id : (n : ℕ) → n ≤ 4096 → clipped n ≡ n
unfolding clipped
clipped-id n h = ground arith

pub readme-IsFileName : IsFileName (codes "README")
unfolding c_str
readme-IsFileName = record { terminated = refl; short = omega arith }

pub homepath-IsFileName : IsFileName (codes "homepath")
unfolding c_str
homepath-IsFileName = record { terminated = refl; short = omega arith }

pub passwd-IsFileName : IsFileName (codes "passwd")
unfolding c_str
passwd-IsFileName = record { terminated = refl; short = omega arith }

pub flag-IsFileName : IsFileName (codes "installed")
unfolding c_str
flag-IsFileName = record { terminated = refl; short = omega arith }

pub codes-ne : (s t : List ℕ) → str_eq s t ≡ false → s ≢ t
codes-ne s t h e = ground (arith, str_eq_refl s)
