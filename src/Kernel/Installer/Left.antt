-- ===== src/Kernel/Installer/Left.antt =====
-- The keys that the screens of kernel/installer.c leave are fewer than those that they were given.
use stellares_os.Common.{
  ℕ, zero, suc, ◌+◌, ◌-◌, ◌≤◌, ◌<◌, ◌≡◌, Bool, true, false, none, some, Option, List, [], ◌∷◌,
  arith, if◌then◌else◌, length, codes, ltb, leb, ◌==◌, ◌&&◌, ◌||◌, set, str_eq, Option-cases, inl,
  inr,
}
use stellares_os.Libc.Str.{c_str, strlen, strcpy}
use stellares_os.Kernel.Installer.{
  Config, field_keys, read_field, or_default, host_char, user_char, screen_hostname, ask_user,
  ask_password, screen_confirm, ask_all, all_chars,
}
use stellares_os.Kernel.Installer.Fields.{by_test}
use stellares_os.Kernel.Installer.Names.{Gives, Gives-some}

abbrev pub Uses : ℕ → Bool × List ℕ × List ℕ → Type 0
Uses n (entered, buf, rest) = length rest < n

Uses-more :
    (n m : ℕ) (r : Option (Bool × List ℕ × List ℕ)) → n ≤ m → Gives (Uses n) r → Gives (Uses m) r
Uses-more n m none l g = tt
Uses-more n m (some (x, buf, rest)) l g = omega arith

field_keys-Uses :
    (maxlen len : ℕ) (buf keys : List ℕ)
    → Gives (Uses (length keys)) (field_keys maxlen buf len keys)
unfolding field_keys
field_keys-Uses maxlen len buf [] = tt
field_keys-Uses maxlen len buf (c ∷ keys) =
    let n = length keys in
    let P = Gives (Uses (suc n)) in
    let back = if ltb 0 len then set buf (len - 1) 0 else buf in
    let up = λ (r : Option (Bool × List ℕ × List ℕ)) (g : Gives (Uses n) r).
      Uses-more n (suc n) r (omega arith) g in
    let shorter = field_keys maxlen back (len - 1) keys in
    let longer = field_keys maxlen (set buf len c) (len + 1) keys in
    let same = field_keys maxlen buf len keys in
    let taken = (leb 32 c && ltb c 127) && ltb len (maxlen - 1) in
    by_test P (c == 10 || c == 13) _ _ (λ e. omega arith)
      (λ e1.
        by_test P (c == 27) _ _ (λ e. omega arith)
          (λ e2.
            by_test P (c == 8) shorter (if taken then longer else same)
              (λ e. up shorter (field_keys-Uses maxlen (len - 1) back keys))
              (λ e3.
                by_test P taken longer same
                  (λ e. up longer (field_keys-Uses maxlen (len + 1) (set buf len c) keys))
                  (λ e. up same (field_keys-Uses maxlen len buf keys)))))

pub used :
    (maxlen : ℕ) (buf keys : List ℕ) (entered : Bool) (buf' rest : List ℕ)
    → read_field maxlen buf keys ≡ some (entered, buf', rest)
    → length rest < length keys
unfolding read_field
used maxlen buf keys entered buf' rest e =
    Gives-some (Uses (length keys)) (field_keys maxlen buf (strlen buf) keys) (entered, buf', rest)
      (field_keys-Uses maxlen (strlen buf) buf keys) e

-- The keys that are left are fewer.
abbrev Left {ℓ} : {A : Type ℓ} → ℕ → A × List ℕ → Type 0
Left n (a, rest) = length rest < n

screen_hostname-Left :
    (f n : ℕ) (host keys : List ℕ) → length keys ≤ n → Gives (Left n) (screen_hostname f host keys)
unfolding screen_hostname
screen_hostname-Left zero n host keys l = tt
screen_hostname-Left (suc f) n host keys l = elim (Option-cases (read_field 30 host keys)) [
  | inl e ↦ rw (e, screen_hostname) tt
  | inr ((entered, buf, rest), e) ↦
      let u = used 30 host keys entered buf rest e in
      let host' = or_default (codes "stellares") buf in
      rw (e, screen_hostname)
        (by_test (Gives (Left n)) (all_chars host_char (c_str host')) (some (host', rest))
          (screen_hostname f host' rest) (λ t. omega arith)
          (λ t. screen_hostname-Left f n host' rest (omega arith)))
]

ask_user-Left :
    (f n : ℕ) (user keys : List ℕ) → length keys ≤ n → Gives (Left n) (ask_user f user keys)
unfolding ask_user
ask_user-Left zero n user keys l = tt
ask_user-Left (suc f) n user keys l = elim (Option-cases (read_field 30 user keys)) [
  | inl e ↦ rw (e, ask_user) tt
  | inr ((entered, buf, rest), e) ↦
      let u = used 30 user keys entered buf rest e in
      let user' =
        or_default (codes "stella") (if entered then buf else strcpy buf (codes "stella")) in
      rw (e, ask_user)
        (by_test (Gives (Left n)) (all_chars user_char (c_str user')) (some (user', rest))
          (ask_user f user' rest) (λ t. omega arith)
          (λ t. ask_user-Left f n user' rest (omega arith)))
]

ask_password-Left :
    (f n : ℕ) (password pass2 keys : List ℕ)
    → length keys ≤ n
    → Gives (Left n) (ask_password f password pass2 keys)
unfolding ask_password
ask_password-Left zero n password pass2 keys l = tt
ask_password-Left (suc f) n password pass2 keys l =
    elim (Option-cases (read_field 62 (strcpy password []) keys)) [
      | inl e ↦ rw (e, ask_password) tt
      | inr ((x, p, behind), e) ↦ elim (Option-cases (read_field 62 (strcpy pass2 []) behind)) [
        | inl e' ↦ rw (e, ask_password, e') tt
        | inr ((y, p2, rest), e') ↦
            let u = used 62 (strcpy password []) keys x p behind e in
            let u' = used 62 (strcpy pass2 []) behind y p2 rest e' in
            let again = ask_password f p p2 rest in
            let ih = ask_password-Left f n p p2 rest (omega arith) in
            rw (e, ask_password, e')
              (by_test (Gives (Left n)) (ltb (strlen p) 4) again
                (if str_eq (c_str p) (c_str p2) then some (p, rest) else again) (λ t. ih)
                (λ t.
                  by_test (Gives (Left n)) (str_eq (c_str p) (c_str p2)) (some (p, rest)) again
                    (λ t'. omega arith) (λ t'. ih)))
      ]
    ]

screen_confirm-Left :
    (n : ℕ) (keys : List ℕ) → length keys ≤ n → Gives (Left n) (screen_confirm keys)
unfolding screen_confirm
screen_confirm-Left n [] l = tt
screen_confirm-Left n (c ∷ keys) l =
    by_test (Gives (Left n)) (c == 10 || c == 13) (some (true, keys)) _ (λ t. omega arith)
      (λ t.
        by_test (Gives (Left n)) (c == 27) (some (false, keys)) (screen_confirm keys)
          (λ t'. omega arith) (λ t'. screen_confirm-Left n keys (omega arith)))

abbrev pub Answered : ℕ → Bool × Config × List ℕ → Type 0
Answered n (confirmed, cfg, rest) = length rest < n

pub ask_all-Answered :
    (old : List ℕ) (cfg : Config) (keys : List ℕ)
    → Gives (Answered (length keys)) (ask_all old cfg keys)
unfolding ask_all
ask_all-Answered old cfg keys =
    elim (Option-cases (screen_hostname (suc (length keys)) cfg.hostname keys)) [
      | inl e ↦ rw (e, ask_all) tt
      | inr ((host, keys1), e) ↦
          elim (Option-cases (ask_user (suc (length keys1)) cfg.username keys1)) [
            | inl e1 ↦ rw (e, ask_all, e1) tt
            | inr ((user, keys2), e1) ↦
                elim (Option-cases (ask_password (suc (length keys2)) cfg.password old keys2)) [
                  | inl e2 ↦ rw (e, ask_all, e1, e2) tt
                  | inr ((password, keys3), e2) ↦ elim (Option-cases (screen_confirm keys3)) [
                    | inl e3 ↦ rw (e, ask_all, e1, e2, e3) tt
                    | inr ((confirmed, rest), e3) ↦
                        rw (e, ask_all, e1, e2, e3)
                          (fewer keys host keys1 user keys2 password keys3 confirmed rest e e1 e2
                            e3)
                  ]
                ]
          ]
    ]
  where
    fewer :
        (keys' host keys1 user keys2 password keys3 : List ℕ) (confirmed : Bool) (rest : List ℕ)
        → screen_hostname (suc (length keys')) cfg.hostname keys' ≡ some (host, keys1)
        → ask_user (suc (length keys1)) cfg.username keys1 ≡ some (user, keys2)
        → ask_password (suc (length keys2)) cfg.password old keys2 ≡ some (password, keys3)
        → screen_confirm keys3 ≡ some (confirmed, rest)
        → length rest < length keys'
    fewer keys' host keys1 user keys2 password keys3 confirmed rest e e1 e2 e3 =
        let n = length keys' in
        let a : length keys1 < n =
          Gives-some (Left n) _ (host, keys1)
            (screen_hostname-Left (suc n) n cfg.hostname keys' (omega arith)) e in
        let b : length keys2 < n =
          Gives-some (Left n) _ (user, keys2)
            (ask_user-Left (suc (length keys1)) n cfg.username keys1 (omega arith)) e1 in
        let c : length keys3 < n =
          Gives-some (Left n) _ (password, keys3)
            (ask_password-Left (suc (length keys2)) n cfg.password old keys2 (omega arith)) e2 in
        Gives-some (Left n) _ (confirmed, rest) (screen_confirm-Left n keys3 (omega arith)) e3
