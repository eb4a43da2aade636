-- ===== src/Kernel/Installer/Fuel.antt =====
-- The loops of kernel/installer.c end: each round uses up a key, so that one round more than there are keys is
-- enough, and no answer stands for a wait for more keys only.
use stellares_os.Common.{
  ℕ, zero, suc, ◌+◌, ◌<◌, ◌≡◌, refl, ap, some, List, [], arith, if◌then◌else◌, length, codes, ltb,
  str_eq, Option-cases, inl, inr,
}
use stellares_os.Libc.Str.{c_str, strlen, strcpy}
use stellares_os.Kernel.Installer.{
  Config, read_field, or_default, host_char, user_char, screen_hostname, ask_user, ask_password,
  ask_all, configure, all_chars,
}
use stellares_os.Kernel.Installer.Names.{Gives-some}
use stellares_os.Kernel.Installer.Left.{used, Answered, ask_all-Answered}

screen_hostname-fuel :
    (f g : ℕ) (host keys : List ℕ)
    → length keys < f
    → length keys < g
    → screen_hostname f host keys ≡ screen_hostname g host keys
unfolding screen_hostname
screen_hostname-fuel zero g host keys l m = absurd (omega arith)
screen_hostname-fuel (suc f) zero host keys l m = absurd (omega arith)
screen_hostname-fuel (suc f) (suc g) host keys l m = elim (Option-cases (read_field 30 host keys)) [
  | inl e ↦ rw (e, screen_hostname) refl
  | inr ((entered, buf, rest), e) ↦
      let u = used 30 host keys entered buf rest e in
      let host' = or_default (codes "stellares") buf in
      rw (e, screen_hostname)
        (ap (λ again. if all_chars host_char (c_str host') then some (host', rest) else again)
          (screen_hostname-fuel f g host' rest (omega arith) (omega arith)))
]

ask_user-fuel :
    (f g : ℕ) (user keys : List ℕ)
    → length keys < f
    → length keys < g
    → ask_user f user keys ≡ ask_user g user keys
unfolding ask_user
ask_user-fuel zero g user keys l m = absurd (omega arith)
ask_user-fuel (suc f) zero user keys l m = absurd (omega arith)
ask_user-fuel (suc f) (suc g) user keys l m = elim (Option-cases (read_field 30 user keys)) [
  | inl e ↦ rw (e, ask_user) refl
  | inr ((entered, buf, rest), e) ↦
      let u = used 30 user keys entered buf rest e in
      let user' =
        or_default (codes "stella") (if entered then buf else strcpy buf (codes "stella")) in
      rw (e, ask_user)
        (ap (λ again. if all_chars user_char (c_str user') then some (user', rest) else again)
          (ask_user-fuel f g user' rest (omega arith) (omega arith)))
]

ask_password-fuel :
    (f g : ℕ) (password pass2 keys : List ℕ)
    → length keys < f
    → length keys < g
    → ask_password f password pass2 keys ≡ ask_password g password pass2 keys
unfolding ask_password
ask_password-fuel zero g password pass2 keys l m = absurd (omega arith)
ask_password-fuel (suc f) zero password pass2 keys l m = absurd (omega arith)
ask_password-fuel (suc f) (suc g) password pass2 keys l m =
    elim (Option-cases (read_field 62 (strcpy password []) keys)) [
      | inl e ↦ rw (e, ask_password) refl
      | inr ((x, p, behind), e) ↦ elim (Option-cases (read_field 62 (strcpy pass2 []) behind)) [
        | inl e' ↦ rw (e, ask_password, e') refl
        | inr ((y, p2, rest), e') ↦
            let u = used 62 (strcpy password []) keys x p behind e in
            let u' = used 62 (strcpy pass2 []) behind y p2 rest e' in
            rw (e, ask_password, e')
              (ap
                (λ again.
                  if ltb (strlen p) 4
                  then again
                  else if str_eq (c_str p) (c_str p2)
                  then some (p, rest)
                  else again)
                (ask_password-fuel f g p p2 rest (omega arith) (omega arith)))
      ]
    ]

configure-fuel :
    (f g : ℕ) (old : ℕ → List ℕ) (cfg : Config) (keys : List ℕ)
    → length keys < f
    → length keys < g
    → configure f old cfg keys ≡ configure g old cfg keys
unfolding configure
configure-fuel zero g old cfg keys l m = absurd (omega arith)
configure-fuel (suc f) zero old cfg keys l m = absurd (omega arith)
configure-fuel (suc f) (suc g) old cfg keys l m = elim (Option-cases (ask_all (old 0) cfg keys)) [
  | inl e ↦ rw (e, configure) refl
  | inr ((confirmed, cfg', rest), e) ↦
      let u : length rest < length keys =
        Gives-some (Answered (length keys)) _ (confirmed, cfg', rest)
          (ask_all-Answered (old 0) cfg keys) e in
      rw (e, configure)
        (ap (λ again. if confirmed then some (cfg', rest) else again)
          (configure-fuel f g (λ i. old (i + 1)) cfg' rest (omega arith) (omega arith)))
]

-- The loops of the installer give with any fuel above the number of keys what they give with one round more than
-- there are keys: fuel never ends one of them.
pub installer-fuel :
    (f : ℕ) (old : ℕ → List ℕ) (cfg : Config) (pass2 keys : List ℕ)
    → length keys < f
    → (screen_hostname f cfg.hostname keys ≡ screen_hostname (suc (length keys)) cfg.hostname keys)
      × (ask_user f cfg.username keys ≡ ask_user (suc (length keys)) cfg.username keys)
      × (ask_password f cfg.password pass2 keys
          ≡ ask_password (suc (length keys)) cfg.password pass2 keys)
      × (configure f old cfg keys ≡ configure (suc (length keys)) old cfg keys)
installer-fuel f old cfg pass2 keys l = (
  screen_hostname-fuel f (suc (length keys)) cfg.hostname keys l (omega arith),
  ask_user-fuel f (suc (length keys)) cfg.username keys l (omega arith),
  ask_password-fuel f (suc (length keys)) cfg.password pass2 keys l (omega arith),
  configure-fuel f (suc (length keys)) old cfg keys l (omega arith),
)
